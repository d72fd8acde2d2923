-- ===== src/Harness/Reported.antt =====
-- What a run of the tests reports (src/lib.rs).
use sil_os.Prelude.{
  ℕ, ◌≡◌, ◌⊎◌, refl, sym, ◌∙◌, Bool, true, false, Bool-cases, if◌then◌else◌, inl, inr, ap, some,
  List, [], ◌∷◌, ◌++◌, codes, utf8, show_nat, length,
}
use mathlib.Core.Path.{subst}
use sil_os.Vga.{Writer, set_color, color_code_new, red, black}
use sil_os.Vga.Printing.{IsWriter, write_string-IsWriter}
use sil_os.Ide.{Bus}
use sil_os.Power.{exit_qemu}
use sil_os.Harness.{
  KernelEnd, ended, waits, TestMachine, TestEnd, returned, panicked, Testable, serial_print,
  serial_println, after_call, run, run_tests, exit_with_success, written_in_red, test_runner,
  test_panic_handler, after_tests, test_kernel_main,
}

module _ {S : Type 0} where
  TestEnd-cases :
      (r : TestEnd S)
      → ((k : TestMachine S) × (r ≡ returned k))
        ⊎ ((info : List ℕ) × (k : TestMachine S) × (r ≡ panicked info k))
  TestEnd-cases (returned k) = inl (k, refl)
  TestEnd-cases (panicked info k) = inr (info, k, refl)

  -- A test that panics leaves a screen whose column is in its row.
  abbrev pub KeepScreen : List (Testable S) → Type 0
  KeepScreen [] = Unit
  KeepScreen (test ∷ tests) =
      ((m k : TestMachine S) (info : List ℕ) → test.call m ≡ panicked info k → IsWriter k.writer)
      × KeepScreen tests

module _ {S : Type 0} (bus : Bus S) (send : List ℕ → S → S) where
  -- What is sent before the first test, before and behind each test, and with a panic's text.
  abbrev pub started : List (Testable S) → TestMachine S → TestMachine S
  started tests m =
      serial_println bus send (codes "Running " ++ (show_nat (length tests) ++ codes " tests")) m

  abbrev pub announced : Testable S → TestMachine S → TestMachine S
  announced test m = serial_print bus send (test.type_name ++ codes "...\t") m

  abbrev pub passed : TestMachine S → TestMachine S
  passed m = serial_println bus send (codes "[ok]") m

  abbrev pub told : List ℕ → TestMachine S → TestMachine S
  told info m = serial_print bus send (codes "\u{1b}[31m" ++ (info ++ codes "\u{1b}[0m")) m

  -- Each test is announced, returns and is reported, one after the other.
  pub data AllPass : List (Testable S) → TestMachine S → TestMachine S → Type 0 where
    no_test : {m : TestMachine S} → AllPass [] m m
    one_test :
        {test : Testable S} {tests : List (Testable S)} {m k m' : TestMachine S}
        → test.call (announced test m) ≡ returned k
        → AllPass tests (passed k) m'
        → AllPass (test ∷ tests) m m'

  -- The first test that panics, with the tests before it.
  pub record OneFails (tests : List (Testable S)) (m : TestMachine S) (info : List ℕ)
      (p : TestMachine S) : Type 0 where
    pub before : List (Testable S)
    pub test : Testable S
    pub after : List (Testable S)
    pub reached : TestMachine S
    pub split : tests ≡ before ++ test ∷ after
    pub all_before : AllPass before m reached
    pub fails : test.call (announced test reached) ≡ panicked info p

  abbrev Outcome : List (Testable S) → TestMachine S → TestEnd S → Type 0
  Outcome tests m (returned k) = AllPass tests m k
  Outcome tests m (panicked info k) = OneFails tests m info k

  Outcome-later :
      (test : Testable S) (tests : List (Testable S)) (m k : TestMachine S)
      → test.call (announced test m) ≡ returned k
      → (r : TestEnd S) → Outcome tests (passed k) r
      → Outcome (test ∷ tests) m r
  Outcome-later test tests m k e (returned m') h = one_test e h
  Outcome-later test tests m k e (panicked info p) h = record {
    before = test ∷ h.before;
    test = h.test;
    after = h.after;
    reached = h.reached;
    split = ap (λ ts. test ∷ ts) h.split;
    all_before = one_test e h.all_before;
    fails = h.fails;
  }

  run_tests-Outcome :
      (tests : List (Testable S)) (m : TestMachine S) → Outcome tests m (run_tests bus send tests m)
  unfolding run_tests run
  run_tests-Outcome [] m = no_test
  run_tests-Outcome (test ∷ tests) m = elim (TestEnd-cases (test.call (announced test m))) [
    | inl (k, e) ↦
        rw (e, run_tests, run)
          (Outcome-later test tests m k e (run_tests bus send tests (passed k))
            (run_tests-Outcome tests (passed k)))
    | inr (info, p, e) ↦
        rw (e, run_tests, run)
          (record {
            before = [];
            test = test;
            after = tests;
            reached = m;
            split = refl;
            all_before = no_test;
            fails = e;
          })
  ]

  -- How the test kernel ends: behind all tests, the exit device gets 0x10; behind the first panic, it
  -- gets 0x11, or the handler waits for the lock that the test holds.
  pub data Verdict (tests : List (Testable S)) (m : TestMachine S) : KernelEnd S → Type 0 where
    success :
        {k : TestMachine S}
        → AllPass tests (started tests m) k
        → Verdict tests m (ended (record k { hardware = bus.write_port 0xF4 0x10 k.hardware }))
    failure :
        {info : List ℕ} {p end_state : TestMachine S}
        → OneFails tests (started tests m) info p
        → p.writer_locked ≡ false
        → end_state.hardware ≡ bus.write_port 0xF4 0x11 (told info p).hardware
        → written_in_red bus send info p.writer ≡ some end_state.writer
        → Verdict tests m (ended end_state)
    deadlock :
        {info : List ℕ} {p : TestMachine S}
        → OneFails tests (started tests m) info p
        → p.writer_locked ≡ true
        → Verdict tests m (waits (told info p))

  keeps_at :
      (before : List (Testable S)) (test : Testable S) (after : List (Testable S))
      → KeepScreen (before ++ test ∷ after)
      → (m k : TestMachine S) (info : List ℕ) → test.call m ≡ panicked info k
      → IsWriter k.writer
  keeps_at [] test after h = h.0
  keeps_at (other ∷ before) test after h = keeps_at before test after h.1

  locked-handler :
      (p : TestMachine S) (info : List ℕ)
      → p.writer_locked ≡ true
      → test_panic_handler bus send info p ≡ waits (told info p)
  unfolding test_panic_handler
  locked-handler p info e = rw (e, test_panic_handler) refl

  free-handler :
      (p : TestMachine S) (info : List ℕ)
      → p.writer_locked ≡ false
      → (w : Writer) → written_in_red bus send info p.writer ≡ some w
      → test_panic_handler bus send info p
        ≡ ended (record (told info p) {
          hardware = bus.write_port 0xF4 0x11 (told info p).hardware;
          writer = w;
        })
  unfolding test_panic_handler exit_qemu
  free-handler p info e w prints = free p.writer_locked e _ (waits (told info p)) ∙ rw prints refl
    where
      free : (locked : Bool) → locked ≡ false → (x y : KernelEnd S) → (if locked then y else x) ≡ x
      free locked q x y = rw q refl

  OneFails-Verdict :
      (tests : List (Testable S)) (m p : TestMachine S) (info : List ℕ)
      → KeepScreen tests
      → OneFails tests (started tests m) info p
      → Verdict tests m (test_panic_handler bus send info p)
  OneFails-Verdict tests m p info keep f = elim (Bool-cases p.writer_locked) [
    | inl e ↦ subst (Verdict tests m) (sym (locked-handler p info e)) (deadlock f e)
    | inr e ↦
        let fits =
          keeps_at f.before f.test f.after (subst KeepScreen f.split keep)
            (announced f.test f.reached) p info f.fails in
        let (w, prints, i) =
          write_string-IsWriter (utf8 info) (set_color (color_code_new red black) p.writer) fits in
        subst (Verdict tests m) (sym (free-handler p info e w prints)) (failure f e refl prints)
  ]

  -- If tests that panic leave a screen whose column is in its row, the test kernel ends in one of
  -- three ways. Every test was announced, returned and was reported, one after the other, and the
  -- exit device gets the code 0x10 behind the last. Or one test panicked: the tests before it
  -- passed, no test ran behind it, the text of its panic was sent to the serial port and printed in
  -- red, and the exit device gets the code 0x11. Or that test panicked with the lock of the writer
  -- held: the text was sent, and the handler waits for the lock before any code is given.
  pub test_kernel_main-Verdict :
      (tests : List (Testable S)) (m : TestMachine S)
      → KeepScreen tests
      → Verdict tests m (test_kernel_main bus send tests m)
  unfolding test_kernel_main test_runner exit_qemu
  test_kernel_main-Verdict tests m keep =
      verdict (run_tests bus send tests (started tests m))
        (run_tests-Outcome tests (started tests m))
    where
      verdict :
          (r : TestEnd S)
          → Outcome tests (started tests m) r
          → Verdict tests m (
              after_tests bus send
                (after_call bus send r (λ k. returned (exit_with_success bus send k))))
      verdict (returned k) h = success h
      verdict (panicked info p) h = OneFails-Verdict tests m p info keep h
