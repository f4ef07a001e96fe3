-- ===== src/Go/Sort/Permuted.antt =====
-- `sort.Strings` of the same texts in another order.
use mathlib.Core.List.{Permᴰ}
use goaxon.Prelude.{
  String, Bool, true, false, List, [], ◌∷◌, ◌≡◌, refl, ap, sym, ◌∙◌, Bool-cases, inl, inr, ◌⊎◌,
  if◌then◌else◌,
}
use goaxon.Go.Sort.{str_leb, insert_sorted, sort_strings}
use goaxon.Go.Sort.Order.{le_trans, le_total, le_antisym}

insert_sorted-before :
    (a c : String) (l : List String) → str_leb a c ≡ true → insert_sorted a (c ∷ l) ≡ a ∷ c ∷ l
unfolding insert_sorted
insert_sorted-before a c l h = ap (λ x. if x then a ∷ c ∷ l else c ∷ insert_sorted a l) h

insert_sorted-after :
    (a c : String) (l : List String)
    → str_leb a c ≡ false
    → insert_sorted a (c ∷ l) ≡ c ∷ insert_sorted a l
unfolding insert_sorted
insert_sorted-after a c l h = ap (λ x. if x then a ∷ c ∷ l else c ∷ insert_sorted a l) h

swapped :
    (a b : String) (l : List String)
    → str_leb a b ≡ true
    → str_leb b a ≡ true
    → a ∷ b ∷ l ≡ b ∷ a ∷ l
swapped a b l p q =
    let same = le_antisym a b p q in ap (λ c. c ∷ b ∷ l) same ∙ ap (λ c. b ∷ c ∷ l) (sym same)

-- Inserting two texts before a list that both come before.
front :
    (a b : String) (l : List String)
    → insert_sorted a l ≡ a ∷ l
    → insert_sorted b l ≡ b ∷ l
    → insert_sorted a (b ∷ l) ≡ insert_sorted b (a ∷ l)
front a b l ha hb = at (str_leb a b) (str_leb b a) refl refl
  where
    at :
        (x y : Bool)
        → str_leb a b ≡ x
        → str_leb b a ≡ y
        → insert_sorted a (b ∷ l) ≡ insert_sorted b (a ∷ l)
    at true true p q =
        insert_sorted-before a b l p ∙ swapped a b l p q ∙ sym (insert_sorted-before b a l q)
    at true false p q =
        insert_sorted-before a b l p ∙ sym (insert_sorted-after b a l q ∙ ap (λ m. a ∷ m) hb)
    at false true p q =
        insert_sorted-after a b l p ∙ ap (λ m. b ∷ m) ha ∙ sym (insert_sorted-before b a l q)
    at false false p q = absurd (cc (q, le_total a b p))

-- One before `c` and one after it.
apart :
    (a b c : String) (l : List String)
    → str_leb a c ≡ true
    → str_leb b c ≡ false
    → insert_sorted a (c ∷ insert_sorted b l) ≡ insert_sorted b (a ∷ c ∷ l)
apart a b c l p q = at (Bool-cases (str_leb b a))
  where
    at :
        (str_leb b a ≡ true) ⊎ (str_leb b a ≡ false)
        → insert_sorted a (c ∷ insert_sorted b l) ≡ insert_sorted b (a ∷ c ∷ l)
    at (inl h) = absurd (cc (q, le_trans b a c h p))
    at (inr h) =
        insert_sorted-before a c (insert_sorted b l) p
        ∙ ap (λ m. a ∷ m) (sym (insert_sorted-after b c l q))
        ∙ sym (insert_sorted-after b a (c ∷ l) h)

insert_sorted_comm :
    (a b : String) (l : List String)
    → insert_sorted a (insert_sorted b l) ≡ insert_sorted b (insert_sorted a l)
unfolding insert_sorted
insert_sorted_comm a b [] = front a b [] refl refl
insert_sorted_comm a b (c ∷ l) = at (insert_sorted_comm a b l) (str_leb a c) (str_leb b c) refl refl
  where
    at :
        insert_sorted a (insert_sorted b l) ≡ insert_sorted b (insert_sorted a l)
        → (x y : Bool) → str_leb a c ≡ x
        → str_leb b c ≡ y
        → insert_sorted a (insert_sorted b (c ∷ l)) ≡ insert_sorted b (insert_sorted a (c ∷ l))
    at below true true p q =
        ap (insert_sorted a) (insert_sorted-before b c l q)
        ∙ front a b (c ∷ l) (insert_sorted-before a c l p) (insert_sorted-before b c l q)
        ∙ ap (insert_sorted b) (sym (insert_sorted-before a c l p))
    at below true false p q =
        ap (insert_sorted a) (insert_sorted-after b c l q)
        ∙ apart a b c l p q
        ∙ ap (insert_sorted b) (sym (insert_sorted-before a c l p))
    at below false true p q =
        ap (insert_sorted a) (insert_sorted-before b c l q)
        ∙ sym (apart b a c l q p)
        ∙ ap (insert_sorted b) (sym (insert_sorted-after a c l p))
    at below false false p q =
        ap (insert_sorted a) (insert_sorted-after b c l q)
        ∙ insert_sorted-after a c (insert_sorted b l) p
        ∙ ap (λ m. c ∷ m) below
        ∙ sym (insert_sorted-after b c (insert_sorted a l) q)
        ∙ ap (insert_sorted b) (sym (insert_sorted-after a c l p))

-- The same texts in any order sort to the same list.
pub sort_strings-Permᴰ : {xs ys : List String} → Permᴰ xs ys → sort_strings xs ≡ sort_strings ys
unfolding sort_strings
sort_strings-Permᴰ Permᴰ.nil = refl
sort_strings-Permᴰ (Permᴰ.cons {a} {l₂ = ys} e d) =
    ap (insert_sorted a) (sort_strings-Permᴰ d) ∙ ap (λ a. insert_sorted a (sort_strings ys)) e
sort_strings-Permᴰ (Permᴰ.swap {a} {b} {a'} {b'} {l = l} e f) =
    insert_sorted_comm a b (sort_strings l)
    ∙ ap (λ c. insert_sorted c (insert_sorted a (sort_strings l))) f
    ∙ ap (λ c. insert_sorted a' (insert_sorted c (sort_strings l))) e
sort_strings-Permᴰ (Permᴰ.trans d d') = sort_strings-Permᴰ d ∙ sort_strings-Permᴰ d'
