-- ===== src/Fabrication/Accepted.antt =====
-- What the release manifests hold that `validate_contract` accepts.
use Prim.Native.String.{String}
use lca.Prelude.{
  ℕ, ◌≡◌, refl, ap, ◌∙◌, All, map, ℤ, Bool, true, false, List, [], ◌∷◌, ◌++◌, Option, some,
  Option-cases, Bool-cases, Result, ok, err, arith, Result-cases, bind_ok, inl, inr, ◌⊎◌,
}
use lca.Floats.{Floats}
use lca.Text.{Text, codes}
use lca.Json.{Fields, json_eq}
use lca.Fabrication.Access.{
  Crash, dict_at, dicts_at, value_at, values_of, texts, text_at, gather, expect, same_set,
  expect_unique,
}
use lca.Fabrication.Pinout.{
  expected_pins, expected_gpio_names, gpio_names, check_package, check_pins, physical_pins,
  physical_pin,
}
use lca.Fabrication.Logical.{
  expected_signals, gpio_numbers, check_logical, check_tests, check_freeze, check_entry,
  pad_is_safe, entry_of, any_contains,
}
use lca.Fabrication.Validate.{release_errors, package_errors, validate_contract}
use lca.Fabrication.Once.{AreExactly, checked-AreExactly}

append-nil : {A : Type 0} (xs ys : List A) → xs ++ ys ≡ [] → (xs ≡ []) × (ys ≡ [])
append-nil [] ys h = (refl, h)
append-nil (x ∷ xs) ys h = absurd (cc)

List-cases : {A : Type 0} (xs : List A) → (xs ≡ []) ⊎ ((y : A) × (ys : List A) × (xs ≡ y ∷ ys))
List-cases [] = inl refl
List-cases (y ∷ ys) = inr (y, ys, refl)

abbrev listed : {A : Type 0} → Result Crash (List A) → List A
listed (ok xs) = xs
listed (err e) = []

module _ (F : Floats) where
  check_pins-AreExactly :
      (pinout : List (Fields F.Float))
      → check_pins F pinout ≡ ok []
      → AreExactly F expected_pins (values_of F (codes "pin") pinout)
  unfolding check_pins
  check_pins-AreExactly pinout h =
      elim (Result-cases (same_set F (values_of F (codes "pin") pinout) (texts F expected_pins))) [
        | inr (e, failed) ↦ absurd (ground arith)
        | inl (covered, c) ↦
            elim (Result-cases (
              expect_unique F (values_of F (codes "pin") pinout)
                "qfn_pinout contains duplicate physical pins")) [
                  | inr (e, failed) ↦ absurd (ground arith)
                  | inl (repeated, r) ↦
                      elim (Result-cases (
                        same_set F (gpio_names F (values_of F (codes "name") pinout))
                          (texts F expected_gpio_names))) [
                            | inr (e, failed) ↦ absurd (ground arith)
                            | inl (mapped, m) ↦
                                checked-AreExactly F expected_pins
                                  (values_of F (codes "pin") pinout)
                                  "qfn_pinout contains duplicate physical pins" (ground (arith, c))
                                  (ground (arith, r, List-cases repeated))
                          ]
                ]
      ]

  -- An entry is on the pin that the pin table gives its GPIO, and its pad is set as its direction
  -- needs.
  abbrev pub IsWired : List (ℕ × ℤ) → Fields F.Float → Type 0
  unfolding json_eq physical_pin
  IsWired pins entry =
      (json_eq F (value_at F (codes "qfn_pin") entry)
          (physical_pin F pins (value_at F (codes "gpio") entry))
        ≡ true)
      × (pad_is_safe F entry ≡ some true)

  check_entry-IsWired :
      (pins : List (ℕ × ℤ)) (entry : Fields F.Float)
      → check_entry F pins entry ≡ []
      → IsWired pins entry
  unfolding check_entry IsWired
  check_entry-IsWired pins entry h =
      elim (Bool-cases (
        json_eq F (value_at F (codes "qfn_pin") entry)
          (physical_pin F pins (value_at F (codes "gpio") entry)))) [
            | inr other ↦ absurd (ground arith)
            | inl e ↦ elim (Option-cases (pad_is_safe F entry)) [
              | inl unknown ↦ absurd (ground arith)
              | inr (true, safe) ↦ (e, safe)
              | inr (false, unsafe) ↦ absurd (ground arith)
            ]
          ]

  abbrev pub AreWired : List (ℕ × ℤ) → List (Fields F.Float) → Type 0
  AreWired pins logical = All (λ (entry : Fields F.Float). IsWired pins entry) logical

  gather-map :
      (pins : List (ℕ × ℤ)) (logical : List (Fields F.Float))
      → gather F (map (check_entry F pins) logical) ≡ []
      → AreWired pins logical
  gather-map pins [] h = tt
  gather-map pins (entry ∷ logical) h =
      let (first, later) =
        append-nil (check_entry F pins entry) (gather F (map (check_entry F pins) logical)) h in
      (check_entry-IsWired pins entry first, gather-map pins logical later)

  expect-true : (b : Bool) (message : String) → expect F b message ≡ [] → b ≡ true
  expect-true true message h = refl
  expect-true false message h = absurd (cc)

  check_logical-accepts :
      (pinout logical : List (Fields F.Float))
      → check_logical F pinout logical ≡ ok []
      → AreExactly F expected_signals (values_of F (codes "signal") logical)
        × ((pins : List (ℕ × ℤ)) × (physical_pins F pinout ≡ ok pins) × AreWired pins logical)
  unfolding check_logical
  check_logical-accepts pinout logical h =
      let (covered, _, h1) =
        bind_ok (same_set F (values_of F (codes "gpio") logical) (gpio_numbers F)) _ [] h in
      let (gpios, _, h2) =
        bind_ok
          (expect_unique F (values_of F (codes "gpio") logical)
            "logical_io contains duplicate GPIO indices")
          _ [] h1 in
      let (signals, unique, h3) =
        bind_ok
          (expect_unique F (values_of F (codes "signal") logical)
            "logical_io contains duplicate signal names")
          _ [] h2 in
      let (pins, found, h4) = bind_ok (physical_pins F pinout) _ [] h3 in
      let (complete, same, h5) =
        bind_ok (same_set F (values_of F (codes "signal") logical) (texts F expected_signals)) _ []
          h4 in
      let (safe_state, _, h6) =
        bind_ok (text_at F (codes "safe_state") (entry_of F (codes "tamper_n") logical)) _ [] h5 in
      let (test_mode, _, h7) =
        bind_ok (any_contains F (codes "test_mode") (values_of F (codes "signal") logical)) _ []
          h6 in
      let (_, a) =
        append-nil (expect F covered "logical_io must cover GPIO0-43 exactly") _ (ap listed h7) in
      let (_, b) = append-nil gpios _ a in
      let (none_twice, c) = append-nil signals _ b in
      let (fine, d) = append-nil (gather F (map (check_entry F pins) logical)) _ c in
      let (all, _) =
        append-nil (expect F complete "logical_io signal set does not match LCA-LINK-16") _ d in
      (
        checked-AreExactly F expected_signals (values_of F (codes "signal") logical)
            "logical_io contains duplicate signal names"
            (same ∙ ap (λ b. ok b) (expect-true complete _ all))
            (unique ∙ ap (λ l. ok l) none_twice),
        (pins, found, gather-map pins logical fine),
      )

  -- The pins and signals of a package manifest are complete and agree.
  pub record IsBonded (pack : Fields F.Float) : Type 0 where
    pub pinout : List (Fields F.Float)
    pub logical : List (Fields F.Float)
    pub pins : List (ℕ × ℤ)
    pub has_pinout : dicts_at F (codes "qfn_pinout") pack ≡ ok pinout
    pub has_logical : dicts_at F (codes "logical_io") pack ≡ ok logical
    pub has_pins : physical_pins F pinout ≡ ok pins
    pub every_pin : AreExactly F expected_pins (values_of F (codes "pin") pinout)
    pub every_signal : AreExactly F expected_signals (values_of F (codes "signal") logical)
    pub wired : AreWired pins logical

  package_errors-IsBonded :
      (release pack : Fields F.Float) → package_errors F release pack ≡ ok [] → IsBonded pack
  unfolding package_errors
  package_errors-IsBonded release pack h =
      let (route, _, h1) = bind_ok (dict_at F (codes "route") release) _ [] h in
      let (commercial, _, h2) = bind_ok (dict_at F (codes "commercial_snapshot") route) _ [] h1 in
      let (meta, _, h3) = bind_ok (check_package F pack) _ [] h2 in
      let (pinout, has_pinout, h4) = bind_ok (dicts_at F (codes "qfn_pinout") pack) _ [] h3 in
      let (logical, has_logical, h5) = bind_ok (dicts_at F (codes "logical_io") pack) _ [] h4 in
      let (pins, checked_pins, h6) = bind_ok (check_pins F pinout) _ [] h5 in
      let (signals, checked_logical, h7) = bind_ok (check_logical F pinout logical) _ [] h6 in
      let (tests, _, h8) = bind_ok (check_tests F pack) _ [] h7 in
      let (freeze, _, h9) = bind_ok (check_freeze F commercial pack) _ [] h8 in
      let (_, a) = append-nil meta _ (ap listed h9) in
      let (no_pin_errors, b) = append-nil pins _ a in
      let (no_signal_errors, _) = append-nil signals _ b in
      let (every_signal, (numbers, found, wired)) =
        check_logical-accepts pinout logical (checked_logical ∙ ap (λ l. ok l) no_signal_errors) in
      record {
        pinout = pinout;
        logical = logical;
        pins = numbers;
        has_pinout = has_pinout;
        has_logical = has_logical;
        has_pins = found;
        every_pin = check_pins-AreExactly pinout (checked_pins ∙ ap (λ l. ok l) no_pin_errors);
        every_signal = every_signal;
        wired = wired;
      }

  -- Where the validator reports no error, each of the pins 1 to 64 and the paddle stands once in
  -- the pin table, each signal of the host link stands once in the logical table, neither table
  -- holds anything else, and every logical entry names the pin that the pin table gives its GPIO
  -- and sets the pad as its direction needs.
  pub validate_contract-IsBonded :
      (date_of : Text → Option ℕ) (release pack : Fields F.Float)
      (discovered_rtl : Option (List Text))
      → validate_contract F date_of release pack discovered_rtl ≡ ok []
      → IsBonded pack
  unfolding validate_contract
  validate_contract-IsBonded date_of release pack discovered_rtl h =
      let (first, _, h1) = bind_ok (release_errors F date_of release pack discovered_rtl) _ [] h in
      let (second, checked, h2) = bind_ok (package_errors F release pack) _ [] h1 in
      let (_, a) = append-nil first _ (ap listed h2) in
      let (no_errors, _) = append-nil second _ a in
      package_errors-IsBonded release pack (checked ∙ ap (λ l. ok l) no_errors)
