-- ===== src/Discovery/Runtime/Combined.antt =====
-- What the combined rules are, and when a change of them is noticed.
use wavefront_collector_for.Prelude.{
  ℕ, ◌+◌, ◌≤◌, zero, suc, String, List, [], ◌∷◌, ◌++◌, Option, Bool, true, false, ◌≡◌, ◌∙◌, refl,
  sym, ap, inl, inr, leb, leb→le, length, length-append, append-nil, append_assoc, arith,
  Bool-cases,
}
use wavefront_collector_for.Prelude.Maps.{Map}
use wavefront_collector_for.Discovery.Runtime.{
  take, write, Slice, shared, own, contents, append, append_each, ConfigHandler, appended, config,
  updated, deleted, notifies,
}

module _ {A : Type 0} where
  abbrev pub concat : List (List A) → List A
  concat [] = []
  concat (xs ∷ more) = xs ++ concat more

  length-write : (n : ℕ) (xs cells : List A) → length (write n xs cells) ≡ length cells
  unfolding write
  length-write n [] cells = refl
  length-write n (x ∷ xs) [] = refl
  length-write zero (x ∷ xs) (c ∷ cells) = ap suc (length-write zero xs cells)
  length-write (suc n) (x ∷ xs) (c ∷ cells) = ap suc (length-write n (x ∷ xs) cells)

  take-write_before :
      (w n : ℕ) (xs cells : List A) → w ≤ n → take w (write n xs cells) ≡ take w cells
  unfolding take write
  take-write_before w n [] cells h = refl
  take-write_before w n (x ∷ xs) [] h = refl
  take-write_before zero zero (x ∷ xs) (c ∷ cells) h = refl
  take-write_before (suc w) zero (x ∷ xs) (c ∷ cells) h = absurd (omega (arith, h))
  take-write_before zero (suc n) (x ∷ xs) (c ∷ cells) h = refl
  take-write_before (suc w) (suc n) (x ∷ xs) (c ∷ cells) h =
      ap (λ l. c ∷ l) (take-write_before w n (x ∷ xs) cells (omega (arith, h)))

  take-write :
      (m n : ℕ) (xs cells : List A)
      → m ≡ n + length xs
      → m ≤ length cells
      → take m (write n xs cells) ≡ take n cells ++ xs
  unfolding take write
  take-write m n [] cells e h =
      ap (λ k. take k cells) (e ∙ omega arith) ∙ sym (append-nil (take n cells))
  take-write zero n (x ∷ xs) cells e h = absurd (omega (arith, e))
  take-write (suc m) n (x ∷ xs) [] e h = absurd (omega (arith, h))
  take-write (suc m) zero (x ∷ xs) (c ∷ cells) e h =
      ap (λ l. x ∷ l) (take-write m zero xs cells (omega (arith, e)) (omega (arith, h)))
  take-write (suc m) (suc n) (x ∷ xs) (c ∷ cells) e h =
      ap (λ l. c ∷ l) (take-write m n (x ∷ xs) cells (omega (arith, e)) (omega (arith, h)))

  -- a slice within its array, that begins with the first w elements
  abbrev Within : ℕ → Slice A → List A → Type 0
  Within w (shared n) cells = (w ≤ n) × (n ≤ length cells)
  Within w (own xs) cells = Unit {0}

  -- what appending xs makes: the slice is longer by xs, and the array keeps its length and its front
  record Appended (w : ℕ) (xs cells before : List A) (t : Slice A) (after : List A) : Type 0 where
    within : Within w t after
    grown : contents t after ≡ before ++ xs
    same_length : length after ≡ length cells
    same_front : take w after ≡ take w cells

  append_lem :
      (w : ℕ) (s : Slice A) (xs cells : List A)
      → Within w s cells
      → Appended w xs cells (contents s cells) (append s xs cells).0 (append s xs cells).1
  unfolding append contents
  append_lem w (own ys) xs cells i = record {
    within = tt;
    grown = refl;
    same_length = refl;
    same_front = refl;
  }
  append_lem w (shared n) xs cells i = elim (Bool-cases (leb (n + length xs) (length cells))) [
    | inl fits ↦
        let le = leb→le (n + length xs) (length cells) fits in
        rw fits (record {
          within = (omega (arith, i.0), omega (arith, le, length-write n xs cells));
          grown = take-write (n + length xs) n xs cells refl le;
          same_length = length-write n xs cells;
          same_front = take-write_before w n xs cells i.0;
        })
    | inr full ↦
        rw full (record { within = tt; grown = refl; same_length = refl; same_front = refl })
  ]

  append_each_lem :
      (w : ℕ) (xss : List (List A)) (s : Slice A) (cells : List A)
      → Within w s cells
      → Appended w
          (concat xss)
          cells
          (contents s cells)
          (append_each xss s cells).0
          (append_each xss s cells).1
  unfolding append_each
  append_each_lem w [] s cells i = record {
    within = i;
    grown = sym (append-nil _);
    same_length = refl;
    same_front = refl;
  }
  append_each_lem w (xs ∷ more) s cells i =
      let one = append_lem w s xs cells i in
      let (t, after) = append s xs cells in
      let rest = append_each_lem w more t after one.within in
      record {
        within = rest.within;
        grown =
            rest.grown
            ∙ ap (λ l. l ++ concat more) one.grown
            ∙ append_assoc (contents s cells) xs (concat more);
        same_length = rest.same_length ∙ one.same_length;
        same_front = rest.same_front ∙ one.same_front;
      }

  append-shared :
      (n : ℕ) (xs cells : List A)
      → n + length xs ≤ length cells
      → append (shared n) xs cells ≡ (shared (n + length xs), write n xs cells)
  unfolding append
  append-shared n xs cells h = ground (arith, h)

  -- where the array is long enough, nothing is copied
  append_each-shared :
      (n : ℕ) (xss : List (List A)) (cells : List A)
      → n + length (concat xss) ≤ length cells
      → (append_each xss (shared n) cells).0 ≡ shared (n + length (concat xss))
  unfolding append_each
  append_each-shared n [] cells h = ap shared (omega arith)
  append_each-shared n (xs ∷ more) cells h =
      let sizes = length-append xs (concat more) in
      ap (λ (p : Slice A × List A). (append_each more p.0 p.1).0)
        (append-shared n xs cells (omega (arith, h, sizes)))
      ∙ append_each-shared (n + length xs) more (write n xs cells)
          (omega (arith, h, sizes, length-write n xs cells))
      ∙ ap shared (omega (arith, sizes))

module _ {R : Type 0} where
  -- the wired rules lie within their array
  abbrev pub InArray : ConfigHandler R → Type 0
  InArray h = h.wired ≤ length h.cells

  -- Just after they were asked for, the combined rules are the wired ones, then those of every config
  -- map and secret by their names, then those of the plugin provider, however long the array of the
  -- wired rules is; and the wired rules are as before.
  pub contents-config :
      (internal : Option (List R)) (h : ConfigHandler R)
      → InArray h
      → let (rules, after) = config internal h in
        (contents rules after.cells ≡ take h.wired h.cells ++ concat (appended internal h))
        × (take after.wired after.cells ≡ take h.wired h.cells)
        × InArray after
  unfolding config contents
  contents-config internal h i =
      let all =
        append_each_lem h.wired (appended internal h) (shared h.wired) h.cells (omega arith, i) in
      (all.grown, all.same_front, omega (arith, i, all.same_length))

  config_shared :
      (internal : Option (List R)) (h : ConfigHandler R)
      → h.wired + length (concat (appended internal h)) ≤ length h.cells
      → (config internal h).0 ≡ shared (h.wired + length (concat (appended internal h)))
  unfolding config
  config_shared internal h fits = append_each-shared h.wired (appended internal h) h.cells fits

  cells-updated :
      (from_yaml : String → Option (List R)) (name : String) (annotations texts : Map String)
      (h : ConfigHandler R)
      → ((updated from_yaml name annotations texts h).cells ≡ h.cells)
        × ((updated from_yaml name annotations texts h).wired ≡ h.wired)
  unfolding updated deleted
  cells-updated from_yaml name annotations texts h = (ground arith, ground arith)

  length-config :
      (internal : Option (List R)) (h : ConfigHandler R)
      → InArray h
      → length (config internal h).1.cells ≡ length h.cells
  unfolding config
  length-config internal h i =
      (append_each_lem h.wired (appended internal h) (shared h.wired) h.cells
        (omega arith, i)).same_length

  -- the rules are asked for, and then a config map or a secret is updated
  abbrev pub changed :
      (String → Option (List R))
      → Option (List R)
      → String
      → Map String
      → Map String
      → ConfigHandler R
      → ConfigHandler R
  changed from_yaml internal name annotations texts h =
      updated from_yaml name annotations texts (config internal h).1

  abbrev rules_of : Option (List R) → ConfigHandler R → ℕ
  rules_of internal h = h.wired + length (concat (appended internal h))

  changed_shared :
      (from_yaml : String → Option (List R)) (internal : Option (List R)) (name : String)
      (annotations texts : Map String) (h : ConfigHandler R)
      → InArray h
      → rules_of internal h ≤ length h.cells
      → length (concat (appended internal (changed from_yaml internal name annotations texts h)))
        ≡ length (concat (appended internal h))
      → (config internal (changed from_yaml internal name annotations texts h)).0
        ≡ (config internal h).0
  unfolding config
  changed_shared from_yaml internal name annotations texts h i fits sizes =
      let next = changed from_yaml internal name annotations texts h in
      let (cells, wired) = cells-updated from_yaml name annotations texts (config internal h).1 in
      let room = length-config internal h i in
      config_shared internal next
        (omega (arith, fits, sizes, wired, ap (λ (l : List R). length l) cells, room))
      ∙ ap shared (omega (arith, sizes, wired))
      ∙ sym (config_shared internal h fits)

  -- A change of the rules is not noticed where the array of the wired rules has room for all rules and
  -- the change leaves their number as it was: asking for the new rules writes them over the old ones,
  -- which are then compared with themselves.
  pub notifies-changed :
      (deep_equal : List R → List R → Bool) (from_yaml : String → Option (List R))
      (internal : Option (List R)) (name : String) (annotations texts : Map String)
      (h : ConfigHandler R)
      → ((x : List R) → deep_equal x x ≡ true)
      → InArray h
      → h.wired + length (concat (appended internal h)) ≤ length h.cells
      → length (concat (appended internal (changed from_yaml internal name annotations texts h)))
        ≡ length (concat (appended internal h))
      → let (old, before) = config internal h in
        let (new, after) = config internal (changed from_yaml internal name annotations texts h) in
        notifies deep_equal (contents old after.cells) (contents new after.cells) ≡ false
  unfolding notifies
  notifies-changed deep_equal from_yaml internal name annotations texts h same i fits sizes =
      rw
        (
          changed_shared from_yaml internal name annotations texts h i fits sizes,
          same (
              contents (config internal h).0
                (config internal (changed from_yaml internal name annotations texts h)).1.cells),
        )
        refl
