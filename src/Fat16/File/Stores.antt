-- ===== src/Fat16/File/Stores.antt =====
-- The writing loop from its first round to its end.
use sil_os.Prelude.{
  ℕ, zero, suc, ◌+◌, ◌-◌, ◌*◌, ◌≤◌, ◌<◌, min, ◌≡◌, ◌∙◌, refl, inl, inr, List, [], ◌∷◌, Option, none,
  some, arith, leb, Bool-cases, Option-cases, lt→ltb, le→ltb, leb→le, leb→lt, length, take, drop,
  length-drop, take_all, drop-drop,
}
use native.Mathlib.Numerals.{add-one}
use sil_os.Fat16.{Bpb, Disk, ok, err, disk_full}
use sil_os.Fat16.Table.{find_free_cluster}
use sil_os.Fat16.Table.Free.{IsFirstFree, find_free_cluster-IsFirstFree}
use sil_os.Fat16.File.{first_of_chain, write_chunks}
use sil_os.Fat16.File.Chunks.{
  IsVolume, IsUsed, stored, two-le, stored_end, stored-Keeps, stored_previous,
}
use sil_os.Fat16.File.Loop.{
  some_injective, Ends, Ends-map, Written, IsFull, Keeps-self, Keeps-IsVolume, Keeps-trans,
  Chain-last, Chain-more,
}

-- The cases of one round, for data that is not empty.
module _ (b : Bpb) (x : ℕ) (xs : List ℕ) (f w : ℕ) (prev : Option ℕ) (first : ℕ) (d : Disk) where
  round_end : write_chunks (suc f) b (x ∷ xs) (length (x ∷ xs)) prev first d ≡ ok first d
  unfolding write_chunks
  round_end = rw (le→ltb (length (x ∷ xs)) (length (x ∷ xs)) (omega arith))

  module _ (inside : w < length (x ∷ xs)) where
    round_full :
        find_free_cluster b d ≡ none
        → write_chunks (suc f) b (x ∷ xs) w prev first d ≡ err disk_full d
    unfolding write_chunks
    round_full e = rw (lt→ltb w _ inside, e)

    module _ (c : ℕ) (found : find_free_cluster b d ≡ some c) where
      round_last :
          length (x ∷ xs) - w ≤ b.sectors_per_cluster * 512
          → write_chunks (suc f) b (x ∷ xs) w prev first d
            ≡ write_chunks f b
                (x ∷ xs)
                (length (x ∷ xs))
                (some c)
                (first_of_chain prev first c)
                (stored b prev c (drop w (x ∷ xs)) d)
      unfolding write_chunks
      round_last fits =
          let n : min (length (x ∷ xs) - w) (b.sectors_per_cluster * 512) ≡ length (x ∷ xs) - w =
            omega arith in
          let all : take (length (x ∷ xs) - w) (drop w (x ∷ xs)) ≡ drop w (x ∷ xs) =
            take_all _ _ (omega (arith, length-drop w (x ∷ xs))) in
          let there : w + (length (x ∷ xs) - w) ≡ length (x ∷ xs) = omega arith in
          rw (lt→ltb w _ inside, found, n, all, there)

      round_more :
          b.sectors_per_cluster * 512 < length (x ∷ xs) - w
          → write_chunks (suc f) b (x ∷ xs) w prev first d
            ≡ write_chunks f b
                (x ∷ xs)
                (w + b.sectors_per_cluster * 512)
                (some c)
                (first_of_chain prev first c)
                (stored b prev c (take (b.sectors_per_cluster * 512) (drop w (x ∷ xs))) d)
      unfolding write_chunks
      round_more long =
          let n : min (length (x ∷ xs) - w) (b.sectors_per_cluster * 512)
              ≡ b.sectors_per_cluster * 512 =
            omega arith in
          rw (lt→ltb w _ inside, found, n)

-- A round that fills a whole cluster puts it in front of what the later rounds write.
in_front :
    (b : Bpb) (d : Disk) (v : IsVolume b d) (c : ℕ) (free : IsFirstFree b d c) (prev : Option ℕ)
    (u : IsUsed b d prev) (first : ℕ) (rest : List ℕ) (fc : ℕ) (d2 : Disk)
    → b.sectors_per_cluster * 512 < length rest
    → Written b
        (some c)
        (first_of_chain prev first c)
        (stored b prev c (take (b.sectors_per_cluster * 512) rest) d)
        (drop (b.sectors_per_cluster * 512) rest)
        fc
        d2
    → Written b prev first d rest fc d2
in_front b d v c free prev u first rest fc d2 long later =
    let chunk = take (b.sectors_per_cluster * 512) rest in
    let d1 = stored b prev c chunk d in
    let kept = stored-Keeps b d v c free prev u chunk in
    record {
      cluster = c;
      first_is = later.first_is;
      number = two-le b d v c free;
      inside = free.below;
      was_free = free.free;
      keeps = Keeps-trans b d v prev c d1 d2 free.free kept later.keeps;
      linked = λ p e.
          let w : IsUsed b d (some p) = rw e at u in
          let link = stored_previous b d v c free prev u chunk p e in
          later.keeps.entry p w.0 (omega (arith, two-le b d v c free))
            (λ q. w.1 (rw (some_injective p c q) free.free))
          ∙ link;
      chain =
          Chain-more b d v c free prev u rest later.cluster d2 long later.keeps
            (later.linked c refl) later.number later.chain;
    }

module _ (b : Bpb) (x : ℕ) (xs : List ℕ) where
  -- The last round.
  loop_last :
      (f w : ℕ) (prev : Option ℕ) (first : ℕ) (d : Disk) (c : ℕ)
      → IsVolume b d
      → IsUsed b d prev
      → w < length (x ∷ xs)
      → find_free_cluster b d ≡ some c
      → IsFirstFree b d c
      → length (x ∷ xs) - w ≤ b.sectors_per_cluster * 512
      → Ends
          (Written b prev first d (drop w (x ∷ xs)))
          (IsFull b prev d)
          (write_chunks (suc (suc f)) b (x ∷ xs) w prev first d)
  loop_last f w prev first d c v u inside found free fits =
      let rest = drop w (x ∷ xs) in
      rw
        (
          round_last b x xs (suc f) w prev first d inside c found fits,
          round_end b x xs f 0 (some c) (first_of_chain prev first c) (stored b prev c rest d),
        )
        (record {
          cluster = c;
          first_is = refl;
          number = two-le b d v c free;
          inside = free.below;
          was_free = free.free;
          keeps = stored-Keeps b d v c free prev u rest;
          linked = stored_previous b d v c free prev u rest;
          chain = Chain-last b d v c free prev u rest (omega (arith, length-drop w (x ∷ xs)));
        })

  -- From any round on: the loop ends, and what it returns heads a chain with the rest of the data.
  loop-Ends :
      (f w : ℕ) (prev : Option ℕ) (first : ℕ) (d : Disk)
      → IsVolume b d
      → IsUsed b d prev
      → w < length (x ∷ xs)
      → length (x ∷ xs) - w < f
      → Ends
          (Written b prev first d (drop w (x ∷ xs)))
          (IsFull b prev d)
          (write_chunks f b (x ∷ xs) w prev first d)
  loop-Ends zero w prev first d v u inside fuel = absurd (omega arith)
  loop-Ends (suc zero) w prev first d v u inside fuel = absurd (omega arith)
  loop-Ends (suc (suc f)) w prev first d v u inside fuel =
      elim (Option-cases (find_free_cluster b d)) [
        | inl full ↦
            rw (round_full b x xs (suc f) w prev first d inside full)
              (record { error = refl; none_free = full; keeps = Keeps-self b d v prev })
        | inr (c, found) ↦
            let g = v.geometry in
            let free = find_free_cluster-IsFirstFree b d c (omega (arith, g.fat_size)) found in
            let n = b.sectors_per_cluster * 512 in
            elim (Bool-cases (leb (length (x ∷ xs) - w) n)) [
              | inl fits ↦ loop_last f w prev first d c v u inside found free (leb→le _ _ fits)
              | inr long ↦
                  let more : n < length (x ∷ xs) - w = leb→lt _ _ long in
                  let rest = drop w (x ∷ xs) in
                  let chunk = take n rest in
                  let d1 = stored b prev c chunk d in
                  let kept = stored-Keeps b d v c free prev u chunk in
                  let two = two-le b d v c free in
                  let v1 = Keeps-IsVolume b d v prev d1 kept (omega (arith, free.below)) in
                  let u1 : IsUsed b d1 (some c) =
                    (free.below, omega (arith, stored_end b d v c free prev u chunk)) in
                  rw (round_more b x xs (suc f) w prev first d inside c found more) (
                    Ends-map
                      (Written b (some c) (first_of_chain prev first c) d1 (drop (w + n) (x ∷ xs)))
                      (Written b prev first d rest) (IsFull b (some c) d1) (IsFull b prev d)
                      (write_chunks (suc f) b (x ∷ xs) (w + n) (some c)
                        (first_of_chain prev first c) d1)
                      (loop-Ends (suc f) (w + n) (some c) (first_of_chain prev first c) d1 v1 u1
                        (omega arith) (omega (arith, g.cluster_pos)))
                      (λ fc d2 later.
                        in_front b d v c free prev u first rest fc d2
                          (omega (arith, length-drop w (x ∷ xs)))
                          (rw (drop-drop w n (w + n) (x ∷ xs) refl) later))
                      (λ e d2 later. record {
                        error = later.error;
                        none_free = later.none_free;
                        keeps = Keeps-trans b d v prev c d1 d2 free.free kept later.keeps;
                      }))
            ]
      ]

-- Empty data takes one cluster.
loop_empty :
    (b : Bpb) (f : ℕ) (d : Disk)
    → IsVolume b d
    → Ends (Written b none 0 d []) (IsFull b none d) (write_chunks (suc f) b [] 0 none 0 d)
unfolding write_chunks
loop_empty b f d v = elim (Option-cases (find_free_cluster b d)) [
  | inl full ↦ rw full (record { error = refl; none_free = full; keeps = Keeps-self b d v none })
  | inr (c, found) ↦
      let g = v.geometry in
      let free = find_free_cluster-IsFirstFree b d c (omega (arith, g.fat_size)) found in
      let no_bytes : take {A = ℕ} (min (0 - 0) (b.sectors_per_cluster * 512)) [] ≡ [] =
        take_all _ [] (omega arith) in
      rw (found, no_bytes)
        (record {
          cluster = c;
          first_is = refl;
          number = two-le b d v c free;
          inside = free.below;
          was_free = free.free;
          keeps = stored-Keeps b d v c free none tt [];
          linked = stored_previous b d v c free none tt [];
          chain = Chain-last b d v c free none tt [] (omega arith);
        })
]

-- The loop as the two writers start it, for any data: with `data.len() + 1` rounds it ends.
pub write_chunks-Ends :
    (b : Bpb) (data_bytes : List ℕ) (d : Disk)
    → IsVolume b d
    → Ends
        (Written b none 0 d data_bytes)
        (IsFull b none d)
        (write_chunks (length data_bytes + 1) b data_bytes 0 none 0 d)
write_chunks-Ends b [] d v = rw add-one (loop_empty b 0 d v)
write_chunks-Ends b (x ∷ xs) d v =
    loop-Ends b x xs (length (x ∷ xs) + 1) 0 none 0 d v tt (omega arith) (omega arith)
