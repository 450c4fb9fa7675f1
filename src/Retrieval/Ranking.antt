-- ===== src/Retrieval/Ranking.antt =====
-- retrieval.py: the order of reranked chunks.
use allcallall_agent_runtime.Common.{
  All, Bool, Bool-cases, List, String, [], arith, false, inl, inr, leb-false, leb→le, length,
  length-take_le, min, refl, suc, take, zero, ℕ, ◌&&◌, ◌∙◌, ◌∷◌, ◌≡◌, ◌≤◌,
}
use allcallall_agent_runtime.Common.Int.{leb_ℤ, ℤ, ◌≤ℤ◌}
use allcallall_agent_runtime.Retrieval.State.{ContextChunk}
use allcallall_agent_runtime.Retrieval.Helpers.{filter}
use allcallall_agent_runtime.Retrieval.Rerank.{
  insert_by, numbered, rerank_context_chunks, rerank_score_of, scored, sort_by, tokenize,
}

module _ {ℓ} {A : Type ℓ} (p : A → Bool) where
  filter-cons :
      (x : A) (xs ys : List A) → filter p xs ≡ filter p ys → filter p (x ∷ xs) ≡ filter p (x ∷ ys)
  unfolding filter
  filter-cons x xs ys e = rw e refl

  filter-swap :
      (x y : A) (zs : List A) → (p x && p y) ≡ false → filter p (y ∷ x ∷ zs) ≡ filter p (x ∷ y ∷ zs)
  unfolding filter
  filter-swap x y zs h = elim (Bool-cases (p x)) [
    | inl e ↦ let f : p y ≡ false = rw e at h in rw (e, f) refl
    | inr e ↦ rw e refl
  ]

not_both :
    (x y z : ℤ) → leb_ℤ y x ≡ false → ((leb_ℤ x z && leb_ℤ z x) && (leb_ℤ y z && leb_ℤ z y)) ≡ false
not_both x y z h = ground arith

module _ {ℓ} {A : Type ℓ} (score : A → ℤ) where
  -- No item of the list scores more than `x`.
  abbrev pub Tops : A → List A → Type 0
  Tops x ys = All (λ y. score y ≤ℤ score x) ys

  abbrev pub IsDescending : List A → Type 0
  IsDescending [] = Unit
  IsDescending (x ∷ xs) = Tops x xs × IsDescending xs

  abbrev has_score : ℤ → A → Bool
  has_score z x = leb_ℤ (score x) z && leb_ℤ z (score x)

  -- The items of one score are the same in both lists, in the same order.
  abbrev pub SameTies : List A → List A → Type ℓ
  SameTies xs ys = (z : ℤ) → filter (has_score z) xs ≡ filter (has_score z) ys

  Tops-trans : (x y : A) (ys : List A) → score x ≤ℤ score y → Tops x ys → Tops y ys
  Tops-trans x y [] h t = tt
  Tops-trans x y (z ∷ zs) h (t, ts) = (omega (arith, h, t), Tops-trans x y zs h ts)

  insert_by-Tops :
      (x y : A) (ys : List A) → score x ≤ℤ score y → Tops y ys → Tops y (insert_by score x ys)
  unfolding insert_by
  insert_by-Tops x y [] h t = (h, tt)
  insert_by-Tops x y (z ∷ zs) h (t, ts) = elim (Bool-cases (leb_ℤ (score z) (score x))) [
    | inl e ↦ rw (e, insert_by) (h, (t, ts))
    | inr e ↦ rw (e, insert_by) (t, insert_by-Tops x y zs h ts)
  ]

  insert_by-IsDescending :
      (x : A) (ys : List A) → IsDescending ys → IsDescending (insert_by score x ys)
  unfolding insert_by
  insert_by-IsDescending x [] d = (tt, tt)
  insert_by-IsDescending x (y ∷ ys) (t, d) = elim (Bool-cases (leb_ℤ (score y) (score x))) [
    | inl e ↦
        let above : score y ≤ℤ score x = leb→le _ _ e in
        rw (e, insert_by) ((above, Tops-trans y x ys above t), (t, d))
    | inr e ↦
        rw (e, insert_by)
          (insert_by-Tops x y ys (omega (arith, leb-false _ _ e)) t, insert_by-IsDescending x ys d)
  ]

  pub sort_by-IsDescending : (xs : List A) → IsDescending (sort_by score xs)
  unfolding sort_by
  sort_by-IsDescending [] = tt
  sort_by-IsDescending (x ∷ xs) =
      insert_by-IsDescending x (sort_by score xs) (sort_by-IsDescending xs)

  insert_by-SameTies : (x : A) (ys : List A) → SameTies (insert_by score x ys) (x ∷ ys)
  unfolding insert_by
  insert_by-SameTies x [] z = refl
  insert_by-SameTies x (y ∷ ys) z = elim (Bool-cases (leb_ℤ (score y) (score x))) [
    | inl e ↦ rw (e, insert_by) refl
    | inr e ↦
        rw (e, insert_by)
          (filter-cons (has_score z) y (insert_by score x ys) (x ∷ ys) (insert_by-SameTies x ys z)
            ∙ filter-swap (has_score z) x y ys (not_both (score x) (score y) z e))
  ]

  pub sort_by-SameTies : (xs : List A) → SameTies (sort_by score xs) xs
  unfolding sort_by
  sort_by-SameTies [] z = refl
  sort_by-SameTies (x ∷ xs) z =
      insert_by-SameTies x (sort_by score xs) z
      ∙ filter-cons (has_score z) x (sort_by score xs) xs (sort_by-SameTies xs z)

module _ {ℓ} {A : Type ℓ} (score : A → ℤ) where
  length-insert_by : (x : A) (ys : List A) → length (insert_by score x ys) ≡ suc (length ys)
  unfolding insert_by
  length-insert_by x [] = refl
  length-insert_by x (y ∷ ys) = ground (arith, length-insert_by x ys)

  length-sort_by : (xs : List A) → length (sort_by score xs) ≡ length xs
  unfolding sort_by
  length-sort_by [] = refl
  length-sort_by (x ∷ xs) = omega (arith, length-insert_by x (sort_by score xs), length-sort_by xs)

length-take {ℓ} : {A : Type ℓ} (n : ℕ) (xs : List A) → length (take n xs) ≡ min n (length xs)
length-take zero xs = omega arith
length-take (suc n) [] = omega arith
length-take (suc n) (x ∷ xs) = omega (arith, length-take n xs)

pub length-numbered : (i : ℕ) (xs : List ContextChunk) → length (numbered i xs) ≡ length xs
unfolding numbered
length-numbered i [] = refl
length-numbered i (x ∷ xs) = omega (arith, length-numbered (suc i) xs)

-- `out` is the best `limit` of `scored`, ranked: `order` is all of it by descending score, equal
-- scores in the order given.
pub record IsRanking (limit : ℕ) (given out : List ContextChunk) : Type 0 where
  pub order : List ContextChunk
  pub ranked : out ≡ numbered 1 (take limit order)
  pub descending : IsDescending rerank_score_of order
  pub ties : SameTies rerank_score_of order given
  pub size : length out ≡ min limit (length given)

module _ (lower : String → String) where
  -- Reranking returns the chunks of highest score, at most the limit and all of them where there
  -- are no more, by descending score and with equal scores in the order given, ranked from 1.
  pub rerank_context_chunks-IsRanking :
      (query : String) (limit : ℕ) (chunks : List ContextChunk)
      → IsRanking limit
          (scored lower (tokenize lower query) 0 chunks)
          (rerank_context_chunks lower query limit chunks)
  unfolding rerank_context_chunks
  rerank_context_chunks-IsRanking query limit chunks =
      let given = scored lower (tokenize lower query) 0 chunks in
      let order = sort_by rerank_score_of given in
      record {
        order = order;
        ranked = refl;
        descending = sort_by-IsDescending rerank_score_of given;
        ties = sort_by-SameTies rerank_score_of given;
        size = omega (
          arith,
          length-numbered 1 (take limit order),
          length-take limit order,
          length-sort_by rerank_score_of given,
        );
      }

  pub length-rerank_le :
      (query : String) (limit : ℕ) (chunks : List ContextChunk)
      → length (rerank_context_chunks lower query limit chunks) ≤ limit
  unfolding rerank_context_chunks
  length-rerank_le query limit chunks =
      let order = sort_by rerank_score_of (scored lower (tokenize lower query) 0 chunks) in
      omega (arith, length-numbered 1 (take limit order), length-take_le limit order)
