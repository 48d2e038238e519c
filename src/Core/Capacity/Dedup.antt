-- ===== src/Core/Capacity/Dedup.antt =====
-- core/src/capacity.rs, the end of `search`: what the sort and the removal of repeats keep.
use trt_llm_rs.Prelude.{
  ◌≡◌, sym, subst, ◌∙◌, ◌⊎◌, List, [], ◌∷◌, ◌++◌, true, All, Bool-cases, inl, inr, Ordering,
}
use trt_llm_rs.Prelude.Float.{Floats}
use trt_llm_rs.Prelude.Sort.{
  sort_by, insert_by, IsTotal, IsSorted, le_by, then_cmp, then_cmp-IsTotal, key-IsTotal,
  reverse-IsTotal,
}
use trt_llm_rs.Core.Capacity.{PdSplit, same_split, dedup_from, dedup, by_goodput}
use trt_llm_rs.Core.Capacity.Search.{Has}

pub Has-append :
    {F : Type 0} (s : PdSplit F) (xs ys : List (PdSplit F)) → Has s xs ⊎ Has s ys → Has s (xs ++ ys)
Has-append s [] ys (inl h) = elim h [ ]
Has-append s [] ys (inr h) = h
Has-append s (x ∷ xs) ys (inl (inl e)) = inl e
Has-append s (x ∷ xs) ys (inl (inr h)) = inr (Has-append s xs ys (inl h))
Has-append s (x ∷ xs) ys (inr h) = inr (Has-append s xs ys (inr h))

Has-All :
    {F : Type 0} (P : PdSplit F → Type 0) (s : PdSplit F) (xs : List (PdSplit F))
    → Has s xs
    → All P xs
    → P s
Has-All P s [] h ps = elim h [ ]
Has-All P s (x ∷ xs) (inl e) (p, ps) = subst P (sym e) p
Has-All P s (x ∷ xs) (inr h) (p, ps) = Has-All P s xs h ps

module _ {F : Type 0} (cmp : PdSplit F → PdSplit F → Ordering) where
  Has-insert_by :
      (s x : PdSplit F) (xs : List (PdSplit F)) → Has s (x ∷ xs) → Has s (insert_by cmp x xs)
  unfolding insert_by
  Has-insert_by s x [] h = h
  Has-insert_by s x (y ∷ ys) h =
      elim (cmp x y)
        as (λ o. Has s (elim o [ Ordering.gt ↦ y ∷ insert_by cmp x ys | _ ↦ x ∷ y ∷ ys ])) [
          | Ordering.lt ↦ h
          | Ordering.eq ↦ h
          | Ordering.gt ↦ elim h [
            | inl e ↦ inr (Has-insert_by s x ys (inl e))
            | inr (inl e) ↦ inl e
            | inr (inr h') ↦ inr (Has-insert_by s x ys (inr h'))
          ]
        ]

  pub Has-sort_by : (s : PdSplit F) (xs : List (PdSplit F)) → Has s xs → Has s (sort_by cmp xs)
  unfolding sort_by
  Has-sort_by s [] h = elim h [ ]
  Has-sort_by s (x ∷ xs) (inl e) = Has-insert_by s x (sort_by cmp xs) (inl e)
  Has-sort_by s (x ∷ xs) (inr h) = Has-insert_by s x (sort_by cmp xs) (inr (Has-sort_by s xs h))

module _ {F : Type 0} (P : PdSplit F → Type 0) where
  All-dedup_from :
      (kept : PdSplit F) (xs : List (PdSplit F)) → P kept → All P xs → All P (dedup_from kept xs)
  unfolding dedup_from
  All-dedup_from kept [] p ps = (p, tt)
  All-dedup_from kept (x ∷ xs) p (q, qs) = elim (Bool-cases (same_split x kept)) [
    | inl same ↦ rw (same, dedup_from) (All-dedup_from kept xs p qs)
    | inr other ↦ rw (other, dedup_from) (p, All-dedup_from x xs q qs)
  ]

  pub All-dedup : (xs : List (PdSplit F)) → All P xs → All P (dedup xs)
  unfolding dedup
  All-dedup [] ps = tt
  All-dedup (x ∷ xs) (p, ps) = All-dedup_from x xs p ps

module _ {F : Type 0} (cmp : PdSplit F → PdSplit F → Ordering) where
  IsSorted-dedup_from :
      (kept : PdSplit F) (xs : List (PdSplit F))
      → IsSorted cmp (kept ∷ xs)
      → IsSorted cmp (dedup_from kept xs)
  unfolding dedup_from
  IsSorted-dedup_from kept [] h = h
  IsSorted-dedup_from kept (x ∷ xs) ((l, ls), (m, ms)) = elim (Bool-cases (same_split x kept)) [
    | inl same ↦ rw (same, dedup_from) (IsSorted-dedup_from kept xs (ls, ms))
    | inr other ↦
        rw (other, dedup_from)
          (
            All-dedup_from (λ y. le_by cmp kept y ≡ true) x xs l ls,
            IsSorted-dedup_from x xs (m, ms),
          )
  ]

  pub IsSorted-dedup : (xs : List (PdSplit F)) → IsSorted cmp xs → IsSorted cmp (dedup xs)
  unfolding dedup
  IsSorted-dedup [] h = tt
  IsSorted-dedup (x ∷ xs) h = IsSorted-dedup_from x xs h

pub by_goodput-IsTotal :
    {F : Type 0} (fl : Floats F) → IsTotal fl.total_cmp → IsTotal (by_goodput fl)
by_goodput-IsTotal fl t =
    reverse-IsTotal
      (λ a b. then_cmp (fl.total_cmp a.goodput_req_s b.goodput_req_s) (
        fl.total_cmp (fl.add a.prefill_req_s a.decode_req_s)
          (fl.add b.prefill_req_s b.decode_req_s)))
      (then_cmp-IsTotal _ _ (key-IsTotal (λ s. s.goodput_req_s) fl.total_cmp t)
        (key-IsTotal (λ s. fl.add s.prefill_req_s s.decode_req_s) fl.total_cmp t))

-- Splits that the four fields tell apart.
pub record IsKeyed {F : Type 0} (P : PdSplit F → Type 0) : Type 0 where
  pub same : (a b : PdSplit F) → P a → P b → same_split a b ≡ true → a ≡ b

module _ {F : Type 0} (P : PdSplit F → Type 0) (keyed : IsKeyed P) where
  Has-dedup_from :
      (s kept : PdSplit F) (xs : List (PdSplit F))
      → P kept
      → All P xs
      → Has s (kept ∷ xs)
      → Has s (dedup_from kept xs)
  unfolding dedup_from
  Has-dedup_from s kept [] p ps h = h
  Has-dedup_from s kept (x ∷ xs) p (q, qs) h = elim (Bool-cases (same_split x kept)) [
    | inl same ↦
        rw (same, dedup_from)
          (Has-dedup_from s kept xs p qs (elim h [
            | inl e ↦ inl e
            | inr (inl e) ↦ inl (e ∙ keyed.same x kept q p same)
            | inr (inr h') ↦ inr h'
          ]))
    | inr other ↦
        rw (other, dedup_from)
          (elim h [ inl e ↦ inl e | inr h' ↦ inr (Has-dedup_from s x xs q qs h') ])
  ]

  pub Has-dedup : (s : PdSplit F) (xs : List (PdSplit F)) → All P xs → Has s xs → Has s (dedup xs)
  unfolding dedup
  Has-dedup s [] ps h = h
  Has-dedup s (x ∷ xs) (p, ps) h = Has-dedup_from s x xs p ps h
