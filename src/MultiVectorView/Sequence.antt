-- ===== src/MultiVectorView/Sequence.antt =====
-- The view as one sequence: what its iterators visit.
use fact_db.Prelude.{
  ℕ, zero, suc, ◌+◌, ◌-◌, ◌<◌, ◌≤◌, ◌≡◌, refl, sym, ap, ◌∙◌, true, false, some, List, [], ◌∷◌, ◌++◌,
  ltb, leb, length, get_elem?, drop, drop-cons, drop-nil, drop-length, length-append, ◌⊎◌, inl, inr,
  Bool-cases, arith,
}
use mathlib.Core.Path.{subst}
use mathlib.Core.List.{append-nil, append_assoc}
use fact_db.MultiVectorView.{
  Iterator, position, out_of_range, skip_from, skip_empty, iterator, dereference, advance, insert,
  begin, end, position_from, iterator_at, size, equal, visit,
}

module _ {ℓ} {A : Type ℓ} where
  -- The elements of all the spans, in their order.
  abbrev pub elements : List (List A) → List A
  elements [] = []
  elements (s ∷ spans) = s ++ elements spans

  size-elements : (spans : List (List A)) → size spans ≡ length (elements spans)
  unfolding size
  size-elements [] = refl
  size-elements (s ∷ spans) = omega (arith, size-elements spans, length-append s (elements spans))

  -- The iterator stands at an element, `rest` being the spans from its own on.
  record At (spans : List (List A)) (it : Iterator) (l : List A) : Type ℓ where
    span : List A
    rest : List (List A)
    here : drop it.span_idx spans ≡ span ∷ rest
    inside : it.elem_idx < length span
    ahead : l ≡ drop it.elem_idx span ++ elements rest

  -- Past the empty spans there is an element, or the end.
  skip_from_cases :
      (spans rest : List (List A)) (i : ℕ)
      → drop i spans ≡ rest
      → i ≤ length spans
      → ((skip_from rest i ≡ length spans) × (elements rest ≡ []))
        ⊎ At spans (record { span_idx = skip_from rest i; elem_idx = 0 }) (elements rest)
  unfolding skip_from
  skip_from_cases spans [] i h le = inl (omega (arith, drop-nil spans i h), refl)
  skip_from_cases spans ([] ∷ rest) i h le =
      let (at, after, lt) = drop-cons spans i h in
      let e : i + 1 ≡ suc i = omega arith in
      rw e (skip_from_cases spans rest (suc i) after (omega arith))
  skip_from_cases spans ((x ∷ s) ∷ rest) i h le =
      inr (record { span = x ∷ s; rest = rest; here = h; inside = omega arith; ahead = refl })

  end_index : (spans : List (List A)) → (end spans).span_idx ≡ length spans
  unfolding end iterator skip_empty skip_from
  end_index spans = rw (drop-length spans) refl

  At-equal :
      (spans : List (List A)) (it : Iterator) (l : List A)
      → At spans it l
      → equal it (end spans) ≡ false
  unfolding equal
  At-equal spans it l a =
      let (at, after, lt) = drop-cons spans it.span_idx a.here in ground (arith, end_index spans)

  drop-get_elem? :
      (xs : List A) (i : ℕ)
      → i < length xs
      → (x : A) × (get_elem? xs i ≡ some x) × (drop i xs ≡ x ∷ drop (suc i) xs)
  drop-get_elem? [] i h = elim h [ ]
  drop-get_elem? (x ∷ xs) zero h = (x, refl, refl)
  drop-get_elem? (x ∷ xs) (suc i) h = drop-get_elem? xs i (omega arith)

  length-drop : (xs : List A) (i : ℕ) → length (drop i xs) ≤ length xs
  length-drop xs zero = omega arith
  length-drop [] (suc i) = omega arith
  length-drop (x ∷ xs) (suc i) = omega (arith, length-drop xs i)

  drop-all : (xs : List A) (i : ℕ) → length xs ≤ i → drop i xs ≡ []
  drop-all [] zero h = refl
  drop-all [] (suc i) h = refl
  drop-all (x ∷ xs) zero h = elim h [ ]
  drop-all (x ∷ xs) (suc i) h = drop-all xs i (omega arith)

  -- The end, or an element: where a loop over `l` stands.
  abbrev Ahead : List (List A) → Iterator → List A → Type ℓ
  Ahead spans it l = (equal it (end spans) ≡ true) × (l ≡ []) ⊎ At spans it l

  Ahead-iterator :
      (spans : List (List A)) (i : ℕ)
      → i ≤ length spans
      → Ahead spans (iterator spans i 0) (elements (drop i spans))
  unfolding iterator skip_empty equal end
  Ahead-iterator spans i le = elim (skip_from_cases spans (drop i spans) i refl le) [
    | inl (at_end, nothing) ↦ inl (ground (arith, end_index spans, at_end), nothing)
    | inr a ↦ inr a
  ]

  -- A step from an element.
  record Steps (spans : List (List A)) (it : Iterator) (l : List A) : Type ℓ where
    element : A
    left : List A
    split : l ≡ element ∷ left
    read : dereference spans it ≡ some element
    next : Iterator
    advanced : advance spans it ≡ some next
    ahead : Ahead spans next left

  At-Steps : (spans : List (List A)) (it : Iterator) (l : List A) → At spans it l → Steps spans it l
  unfolding dereference advance iterator
  At-Steps spans it l a =
      let (x, at_elem, cut) = drop-get_elem? a.span it.elem_idx a.inside in
      let (at, after, lt) = drop-cons spans it.span_idx a.here in
      let first : l ≡ x ∷ (drop (suc it.elem_idx) a.span ++ elements a.rest) =
        a.ahead ∙ ap (λ c. c ++ elements a.rest) cut in
      let next_span : it.span_idx + 1 ≡ suc it.span_idx = omega arith in
      let bump : it.elem_idx + 1 ≡ suc it.elem_idx = omega arith in
      elim (Bool-cases (leb (length a.span) (it.elem_idx + 1))) [
        | inl last ↦ record {
          element = x;
          left = elements a.rest;
          split =
              first
              ∙ ap (λ d. x ∷ (d ++ elements a.rest))
                  (drop-all a.span (suc it.elem_idx) (ground (arith, last)));
          read = rw at at_elem;
          next = record { span_idx = skip_empty spans (it.span_idx + 1); elem_idx = 0 };
          advanced = rw at (rw last refl);
          ahead =
              subst (λ r. Ahead spans (iterator spans (it.span_idx + 1) 0) (elements r))
                (ap (λ n. drop n spans) next_span ∙ after)
                (Ahead-iterator spans (it.span_idx + 1) (omega arith));
        }
        | inr more ↦ record {
          element = x;
          left = drop (suc it.elem_idx) a.span ++ elements a.rest;
          split = first;
          read = rw at at_elem;
          next = record it { elem_idx = it.elem_idx + 1 };
          advanced = rw at (rw more refl);
          ahead = inr (record {
            span = a.span;
            rest = a.rest;
            here = a.here;
            inside = ground (arith, more);
            ahead = rw bump refl;
          });
        }
      ]

  -- The loop visits what is ahead.
  visit-Ahead :
      (fuel : ℕ) (spans : List (List A)) (it : Iterator) (l : List A)
      → length l < fuel
      → Ahead spans it l
      → visit fuel spans it ≡ some l
  unfolding visit
  visit-Ahead zero spans it l h a = elim h [ ]
  visit-Ahead (suc fuel) spans it l h (inl (at_end, nothing)) =
      rw (visit, at_end) (ap some (sym nothing))
  visit-Ahead (suc fuel) spans it l h (inr a) =
      let s = At-Steps spans it l a in
      let rest = visit-Ahead fuel spans s.next s.left (omega (arith, ap length s.split)) s.ahead in
      rw (visit, At-equal spans it l a, s.read, s.advanced, rest) (ap some (sym s.split))

  drop-append_within :
      (xs ys : List A) (n : ℕ) → n ≤ length xs → drop n (xs ++ ys) ≡ drop n xs ++ ys
  drop-append_within xs ys zero h = refl
  drop-append_within [] ys (suc n) h = elim h [ ]
  drop-append_within (x ∷ xs) ys (suc n) h = drop-append_within xs ys n (omega arith)

  drop-append_past :
      (xs ys : List A) (n : ℕ) → length xs ≤ n → drop n (xs ++ ys) ≡ drop (n - length xs) ys
  drop-append_past [] ys n h = ap (λ k. drop k ys) (omega arith)
  drop-append_past (x ∷ xs) ys zero h = elim h [ ]
  drop-append_past (x ∷ xs) ys (suc n) h =
      drop-append_past xs ys n (omega arith) ∙ ap (λ k. drop k ys) (omega arith)

  skip_from-some :
      (s : List A) (rest : List (List A)) (i : ℕ) → 0 < length s → skip_from (s ∷ rest) i ≡ i
  unfolding skip_from
  skip_from-some [] rest i h = elim h [ ]
  skip_from-some (x ∷ s) rest i h = refl

  At-iterator :
      (spans : List (List A)) (s : List A) (rest : List (List A)) (si pos : ℕ)
      → drop si spans ≡ s ∷ rest
      → pos < length s
      → At spans (iterator spans si pos) (drop pos (s ++ elements rest))
  unfolding iterator skip_empty
  At-iterator spans s rest si pos h lt =
      let stays : skip_from (drop si spans) si ≡ si =
        ap (λ r. skip_from r si) h ∙ skip_from-some s rest si (omega arith) in
      record {
        span = s;
        rest = rest;
        here = ap (λ k. drop k spans) stays ∙ h;
        inside = lt;
        ahead = drop-append_within s (elements rest) pos (omega arith);
      }

  -- The loop of `iterator_at` finds the position, if there are enough elements.
  position_from-Ahead :
      (spans rest : List (List A)) (si pos : ℕ)
      → drop si spans ≡ rest
      → pos ≤ length (elements rest)
      → (it : Iterator) × (position_from spans rest si pos ≡ position it)
        × Ahead spans it (drop pos (elements rest))
  unfolding position_from equal
  position_from-Ahead spans [] si zero h le = (end spans, refl, inl (ground arith, refl))
  position_from-Ahead spans [] si (suc pos) h le = elim le [ ]
  position_from-Ahead spans (s ∷ rest) si pos h le = elim (Bool-cases (ltb pos (length s))) [
    | inl here ↦ (
      iterator spans si pos,
      rw here refl,
      inr (At-iterator spans s rest si pos h (ground (arith, here))),
    )
    | inr later ↦
        let (at, after, lt) = drop-cons spans si h in
        let past : length s ≤ pos = ground (arith, later) in
        let bump : si + 1 ≡ suc si = omega arith in
        let (it, found, ahead) =
          position_from-Ahead spans rest (si + 1) (pos - length s)
            (ap (λ k. drop k spans) bump ∙ after)
            (omega (arith, length-append s (elements rest))) in
        (
          it,
          rw later found,
          subst (Ahead spans it) (sym (drop-append_past s (elements rest) pos past)) ahead,
        )
  ]

  position_from-out_of_range :
      (spans rest : List (List A)) (si pos : ℕ)
      → length (elements rest) < pos
      → position_from spans rest si pos ≡ out_of_range
  unfolding position_from
  position_from-out_of_range spans [] si pos h = ground arith
  position_from-out_of_range spans (s ∷ rest) si pos h =
      let long = length-append s (elements rest) in
      let later : ltb pos (length s) ≡ false = ground (arith, long) in
      rw later
        (position_from-out_of_range spans rest (si + 1) (pos - length s) (omega (arith, long)))

  -- For a position up to size, iterator_at returns an iterator, and the loop from it to the end
  -- visits exactly the elements of all the spans in their order, without the first ones up to
  -- the position; empty spans are passed over.
  pub visit-iterator_at :
      (spans : List (List A)) (pos : ℕ)
      → pos ≤ size spans
      → (it : Iterator) × (iterator_at spans pos ≡ position it)
        × (visit (size spans + 1) spans it ≡ some (drop pos (elements spans)))
  unfolding iterator_at
  visit-iterator_at spans pos le =
      let (it, found, ahead) =
        position_from-Ahead spans spans 0 pos refl (omega (arith, size-elements spans)) in
      (
        it,
        found,
        visit-Ahead (size spans + 1) spans it (drop pos (elements spans))
            (omega (arith, size-elements spans, length-drop (elements spans) pos)) ahead,
      )

  -- For a position beyond size, iterator_at throws out_of_range.
  pub iterator_at-out_of_range :
      (spans : List (List A)) (pos : ℕ) → size spans < pos → iterator_at spans pos ≡ out_of_range
  unfolding iterator_at
  iterator_at-out_of_range spans pos h =
      position_from-out_of_range spans spans 0 pos (omega (arith, size-elements spans))

  elements-insert :
      (spans : List (List A)) (s : List A) → elements (spans ++ s ∷ []) ≡ elements spans ++ s
  elements-insert [] s = append-nil s
  elements-insert (x ∷ spans) s =
      ap (λ l. x ++ l) (elements-insert spans s) ∙ sym (append_assoc x (elements spans) s)

  -- The loop from begin to the end visits exactly the elements of all the spans in their order,
  -- size is their number, and insert adds the elements of the span at the end.
  pub visit-begin :
      (spans : List (List A)) (s : List A)
      → (visit (size spans + 1) spans (begin spans) ≡ some (elements spans))
        × (size spans ≡ length (elements spans))
        × (elements (insert spans s) ≡ elements spans ++ s)
  unfolding begin insert
  visit-begin spans s = (
    visit-Ahead (size spans + 1) spans (iterator spans 0 0) (elements spans)
        (omega (arith, size-elements spans)) (Ahead-iterator spans 0 (omega arith)),
    size-elements spans,
    elements-insert spans s,
  )
