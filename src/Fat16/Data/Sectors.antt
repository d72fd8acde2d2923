-- ===== src/Fat16/Data/Sectors.antt =====
-- A run of sectors as one string of bytes: reading takes its front, writing a chunk puts the chunk
-- there.
use sil_os.Prelude.{
  ℕ, zero, suc, ◌+◌, ◌-◌, ◌*◌, ◌%◌, ◌^◌, ◌≤◌, ◌<◌, min, ◌≡◌, ◌∙◌, refl, sym, ap, inl, inr, List, [],
  ◌++◌, arith, ◌==◌, leb, ◌⊎◌, Bool-cases, leb→le, leb→lt, length, take, drop, overwrite,
  length-append, length-take, length-drop, length-overwrite, length-replicate, take-append,
  take-append_le, take-append-drop, take-min, nil_of_length, take_all, drop_all, drop-drop,
  drop-overwrite,
}
use mathlib.Core.Path.{ap₂}
use native.Mathlib.Nat.{add-zero}
use mathlib.Core.List.{append_assoc, append-nil}
use sil_os.Fat16.{Disk, IsDisk, write_block}
use sil_os.Fat16.Data.{reading, read_sectors, zero_sector, sector_buffer, write_sectors}

-- The bytes of the `n` sectors from `lba`.
abbrev pub sectors_bytes : ℕ → ℕ → Disk → List ℕ
sectors_bytes zero lba d = []
sectors_bytes (suc n) lba d = d lba ++ sectors_bytes n (lba + 1) d

pub length-sectors_bytes :
    (n lba : ℕ) (d : Disk) → IsDisk d → length (sectors_bytes n lba d) ≡ n * 512
length-sectors_bytes zero lba d h = omega arith
length-sectors_bytes (suc n) lba d h = omega (
  arith,
  length-append (d lba) (sectors_bytes n (lba + 1) d),
  h lba,
  length-sectors_bytes n (lba + 1) d h,
)

pub sectors_bytes_cong :
    (n lba : ℕ) (d d' : Disk)
    → ((i : ℕ) → i < n → d' (lba + i) ≡ d (lba + i))
    → sectors_bytes n lba d' ≡ sectors_bytes n lba d
sectors_bytes_cong zero lba d d' h = refl
sectors_bytes_cong (suc n) lba d d' h = ap₂ ◌++◌ (rw add-zero at (h 0 (omega arith))) (
    sectors_bytes_cong n (lba + 1) d d'
      λ i lt. let e : lba + 1 + i ≡ lba + (i + 1) = omega arith in rw e (h (i + 1) (omega arith)))

-- One pass over `n` sectors appends the front of their bytes.
pub read_sectors_lem :
    (n i lba k rem : ℕ) (out : List ℕ) (d : Disk)
    → IsDisk d
    → lba + i ≡ k
    → k + n ≤ 2 ^ 32
    → read_sectors n i lba d (reading out rem)
      ≡ reading (out ++ take rem (sectors_bytes n k d)) (rem - n * 512)
unfolding read_sectors
read_sectors_lem zero i lba k rem out d h e small =
    ap₂ reading (sym (append-nil out) ∙ ap (out ++◌) (sym (take_all rem [] (omega arith))))
      (omega arith)
read_sectors_lem (suc n) i lba k rem out d h e small =
    let at_k : (lba + i) % 2 ^ 32 ≡ k = omega arith in
    rw at_k (elim (Bool-cases (rem - min rem 512 == 0)) [
      | inl last ↦
          let m : min rem 512 ≡ rem = ground arith in
          rw last (
            ap₂ reading
              (ap (out ++◌) (
                ap (λ j. take j (d k)) m
                ∙ sym (take-append_le (d k) (sectors_bytes n (k + 1) d) rem (omega (arith, h k)))))
              (ground arith))
      | inr more ↦
          let m : min rem 512 ≡ 512 = ground arith in
          rw more (
            read_sectors_lem n (i + 1) lba (k + 1) (rem - min rem 512)
              (out ++ take (min rem 512) (d k)) d h (omega arith) (omega arith)
            ∙ ap₂ reading
                (append_assoc out _ _
                  ∙ ap (out ++◌) (
                      ap₂ ◌++◌ (ap (λ j. take j (d k)) m ∙ take_all 512 (d k) (omega (arith, h k)))
                        (ap (λ j. take j (sectors_bytes n (k + 1) d)) (ap (λ j. rem - j) m))
                      ∙ sym (
                          take-append (d k) (sectors_bytes n (k + 1) d) rem (rem - 512)
                            (ground (arith, h k)))))
                (ground arith))
    ])

pub length-zero_sector : length zero_sector ≡ 512
unfolding zero_sector
length-zero_sector = length-replicate {A = ℕ} 512 0

-- The buffer of a chunk's part begins with that part, and zeros follow.
sector_buffer_lem :
    (chunk : List ℕ) (start : ℕ)
    → sector_buffer chunk start
      ≡ take 512 (drop start chunk) ++ drop (length (take 512 (drop start chunk))) zero_sector
unfolding sector_buffer
sector_buffer_lem chunk start =
    let c = drop start chunk in
    let m : take (min 512 (length chunk - start)) c ≡ take 512 c =
      ap (λ j. take (min 512 j) c) (sym (length-drop start chunk)) ∙ take-min 512 c in
    ap (λ s. overwrite 0 s zero_sector) m
    ∙ drop-overwrite 0 (take 512 c) zero_sector
        (omega (arith, length-take 512 c, length-zero_sector))
    ∙ ap (λ j. take 512 c ++ drop j zero_sector) (omega arith)

pub length-sector_buffer : (chunk : List ℕ) (start : ℕ) → length (sector_buffer chunk start) ≡ 512
unfolding sector_buffer
length-sector_buffer chunk start = length-overwrite 0 _ zero_sector ∙ length-zero_sector

pub write_sectors-IsDisk :
    (n idx lba : ℕ) (chunk : List ℕ) (d : Disk)
    → IsDisk d
    → IsDisk (write_sectors n idx lba chunk d)
unfolding write_sectors
write_sectors-IsDisk zero idx lba chunk d h = h
write_sectors-IsDisk (suc n) idx lba chunk d h =
    elim (Bool-cases (leb (length chunk) (idx * 512))) [
      | inl over ↦ rw over h
      | inr more ↦ rw more (
          write_sectors-IsDisk n (idx + 1) lba chunk _
            λ l. ground (arith, h l, length-sector_buffer chunk (idx * 512)))
    ]

pub write_sectors_other :
    (n idx lba : ℕ) (chunk : List ℕ) (d : Disk) (l : ℕ)
    → lba + idx + n ≤ 2 ^ 32
    → (l < lba + idx) ⊎ (lba + idx + n ≤ l)
    → write_sectors n idx lba chunk d l ≡ d l
unfolding write_sectors
write_sectors_other zero idx lba chunk d l small out = refl
write_sectors_other (suc n) idx lba chunk d l small out = ground (
  arith,
  write_sectors_other n (idx + 1) lba chunk
      (write_block ((lba + idx) % 2 ^ 32) (sector_buffer chunk (idx * 512)) d) l,
)

-- A padded front and what follows it spell the whole chunk.
front_and_rest :
    (c rest : List ℕ)
    → take (length (drop 512 c)) rest ≡ drop 512 c
    → take (length c) ((take 512 c ++ drop (length (take 512 c)) zero_sector) ++ rest) ≡ c
front_and_rest c rest h = elim (Bool-cases (leb (length c) 512)) [
  | inl short ↦
      let whole : take 512 c ≡ c = take_all 512 c (leb→le _ _ short) in
      ap (λ s. take (length c) ((s ++ drop (length s) zero_sector) ++ rest)) whole
      ∙ ap (take (length c)) (append_assoc c _ rest)
      ∙ take-append c (drop (length c) zero_sector ++ rest) (length c) 0 (omega arith)
      ∙ append-nil c
  | inr long ↦
      let n : length (take 512 c) ≡ 512 = omega (arith, length-take 512 c, leb→lt _ _ long) in
      let no_pad : drop (length (take 512 c)) zero_sector ≡ [] =
        drop_all _ zero_sector (omega (arith, length-zero_sector)) in
      ap (λ p. take (length c) ((take 512 c ++ p) ++ rest)) no_pad
      ∙ ap (λ s. take (length c) (s ++ rest)) (append-nil (take 512 c))
      ∙ take-append (take 512 c) rest (length c) (length (drop 512 c))
          (omega (arith, length-drop 512 c, leb→lt _ _ long))
      ∙ ap (take 512 c ++◌) h
      ∙ take-append-drop 512 c
]

written_at :
    (idx lba k : ℕ) (chunk : List ℕ) (d : Disk)
    → lba + idx ≡ k
    → k < 2 ^ 32
    → write_block ((lba + idx) % 2 ^ 32) (sector_buffer chunk (idx * 512)) d k
      ≡ sector_buffer chunk (idx * 512)
unfolding write_block
written_at idx lba k chunk d e small = ground arith

-- After the loop the sectors hold what is left of the chunk.
write_sectors_part :
    (n idx lba k : ℕ) (chunk : List ℕ) (d : Disk)
    → lba + idx ≡ k
    → k + n ≤ 2 ^ 32
    → length (drop (idx * 512) chunk) ≤ n * 512
    → take (length (drop (idx * 512) chunk)) (sectors_bytes n k (write_sectors n idx lba chunk d))
      ≡ drop (idx * 512) chunk
unfolding write_sectors
write_sectors_part zero idx lba k chunk d e small fits =
    take_all _ [] (omega arith) ∙ sym (nil_of_length _ (omega arith))
write_sectors_part (suc n) idx lba k chunk d e small fits =
    elim (Bool-cases (leb (length chunk) (idx * 512))) [
      | inl over ↦ let gone = drop_all (idx * 512) chunk (ground arith) in rw gone
      | inr more ↦
          let c = drop (idx * 512) chunk in
          let d1 = write_block ((lba + idx) % 2 ^ 32) (sector_buffer chunk (idx * 512)) d in
          let after = write_sectors n (idx + 1) lba chunk d1 in
          let tail : drop ((idx + 1) * 512) chunk ≡ drop 512 c =
            sym (drop-drop (idx * 512) 512 _ chunk (omega arith)) in
          let at_k : after k ≡ take 512 c ++ drop (length (take 512 c)) zero_sector =
            write_sectors_other n (idx + 1) lba chunk d1 k (omega arith) (inl (omega arith))
            ∙ written_at idx lba k chunk d e (omega arith)
            ∙ sector_buffer_lem chunk (idx * 512) in
          rw (more, at_k)
            (front_and_rest c (sectors_bytes n (k + 1) after) (
              rw tail at (
                write_sectors_part n (idx + 1) lba (k + 1) chunk d1 (omega arith) (omega arith)
                  (rw tail (omega (arith, length-drop 512 c))))))
    ]

-- Writing a chunk that fits into the sectors from `lba` puts it at their front.
pub sectors_bytes-write_sectors :
    (n lba : ℕ) (chunk : List ℕ) (d : Disk)
    → lba + n ≤ 2 ^ 32
    → length chunk ≤ n * 512
    → take (length chunk) (sectors_bytes n lba (write_sectors n 0 lba chunk d)) ≡ chunk
sectors_bytes-write_sectors n lba chunk d small fits =
    write_sectors_part n 0 lba lba chunk d (omega arith) small fits
