-- ===== src/Compiler/Texted.antt =====
-- Tables whose keys are all texts, and the maps of the executor, which have no other keys.
use skill2workflow.Prelude.{
  String, ◌≡◌, refl, subst, Bool, true, false, some, [], ◌∷◌, arith, ◌==◌, inl, inr, eq_iff,
  eq_refl, Bool-cases,
}
use skill2workflow.Dict.{Dict, lookup, insert}
use skill2workflow.Json.{Json, null, bool, int, float, str, arr, obj, same, as_text}
use skill2workflow.Compiler.Tables.{Table, find, store}

pub same-str : (s : String) (v : Json) → same (str s) v ≡ true → v ≡ str s
unfolding same as_text
same-str s (str t) h = ground (arith, eq_iff s t)
same-str s null h = cc
same-str s (bool b) h = cc
same-str s (int i) h = cc
same-str s (float x) h = cc
same-str s (arr xs) h = cc
same-str s (obj fs) h = cc

module _ {ℓ} {V : Type ℓ} where
  unfoldable pub all_text : Table V → Bool
  all_text [] = true
  all_text ((str s, v) ∷ rest) = all_text rest
  all_text (_ ∷ rest) = false

  unfoldable pub texted : Dict V → Table V
  texted [] = []
  texted ((s, v) ∷ rest) = (str s, v) ∷ texted rest

  pub find-texted : (t : String) (d : Dict V) → find (str t) (texted d) ≡ lookup t d
  unfolding find texted lookup same as_text
  find-texted t [] = refl
  find-texted t ((s, v) ∷ rest) = rw (find-texted t rest) refl

  pub store-texted :
      (t : String) (new : V) (d : Dict V) → store (str t) new (texted d) ≡ texted (insert t new d)
  unfolding store texted insert same as_text
  store-texted t new [] = refl
  store-texted t new ((s, v) ∷ rest) =
      let ih = store-texted t new rest in
      elim (Bool-cases (s == t)) [
        | inl p ↦ (let e : s ≡ t = ground (arith, eq_iff s t) in rw (p, e) refl)
        | inr p ↦ rw (p, ih) refl
      ]

  -- A key found in such a table is a text.
  pub find-is_text :
      (k : Json) (d : Dict V) (v : V)
      → find k (texted d) ≡ some v
      → (t : String) × (k ≡ str t) × (lookup t d ≡ some v)
  unfolding find texted lookup same as_text
  find-is_text k [] v h = cc
  find-is_text k ((s, w) ∷ rest) v h = elim (Bool-cases (same (str s) k)) [
    | inl p ↦
        let found : some w ≡ some v = rw (p, find) at h in
        (s, same-str s k p, ground (arith, eq_refl s))
    | inr p ↦
        let (t, e, q) = find-is_text k rest v (rw (p, find) at h) in
        let apart : same (str s) (str t) ≡ false = subst (λ j. same (str s) j ≡ false) e p in
        (t, e, ground arith)
  ]

  -- What was stored is under a text, and all other keys are texts too.
  pub all_text-store :
      (k : Json) (new : V) (table : Table V)
      → all_text (store k new table) ≡ true
      → (all_text table ≡ true) × ((t : String) × (k ≡ str t))
  unfolding store all_text
  all_text-store (str t) new [] h = (refl, (t, refl))
  all_text-store null new [] h = cc
  all_text-store (bool b) new [] h = cc
  all_text-store (int i) new [] h = cc
  all_text-store (float x) new [] h = cc
  all_text-store (arr xs) new [] h = cc
  all_text-store (obj fs) new [] h = cc
  all_text-store k new ((str s, v) ∷ rest) h = elim (Bool-cases (same (str s) k)) [
    | inl p ↦ (rw (p, store, all_text) at h, (s, same-str s k p))
    | inr p ↦ all_text-store k new rest (rw (p, store, all_text) at h)
  ]
  all_text-store k new ((null, v) ∷ rest) h = (let b = same null k in ground arith)
  all_text-store k new ((bool b, v) ∷ rest) h = ground arith
  all_text-store k new ((int i, v) ∷ rest) h = ground arith
  all_text-store k new ((float x, v) ∷ rest) h = ground arith
  all_text-store k new ((arr xs, v) ∷ rest) h = ground arith
  all_text-store k new ((obj fs, v) ∷ rest) h = ground arith
