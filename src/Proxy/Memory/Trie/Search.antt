-- ===== src/Proxy/Memory/Trie/Search.antt =====
-- The search of a prefix tree finds a marked key exactly if there is one.
use synctv.Base.{
  ℕ, true, false, some, [], ◌∷◌, ◌==◌, ◌≡◌, refl, arith, ap, sym, ◌∙◌, Option-cases, Bool-cases,
  if_true, inl, inr,
}
use synctv.Base.Text.{Text, is_empty}
use synctv.Proxy.Memory.Trie.{TrieNode, node, Children, leaf, child, next, find_key, find_among}
use synctv.Proxy.Memory.Trie.Laws.{marked}
use synctv.Proxy.Memory.Trie.Shape.{IsShaped, AreShaped}

-- What is found among children is marked below one of them.
mutual
  unfolding find_key find_among marked AreShaped next is_empty

  found_key :
      (t : TrieNode)
      → IsShaped t
      → is_empty (find_key t) ≡ false
      → (q : Text) × (marked q t ≡ some (find_key t))
  found_key (node cs k true) s h = ([], refl)
  found_key (node cs k false) s h =
      let (c, n, q, a, b) = found_among cs s h in (c ∷ q, rw (a, marked) b)

  found_among :
      (cs : Children)
      → AreShaped cs
      → is_empty (find_among cs) ≡ false
      → (c : ℕ) × (n : TrieNode) × (q : Text) × (next c cs ≡ some n)
        × (marked q n ≡ some (find_among cs))
  found_among leaf s h = cc
  found_among (child c n cs) (a, b, s) h = elim (Bool-cases (is_empty (find_key n))) [
    | inr e ↦ let (q, m) = found_key n b e in (c, n, q, ground arith, rw e m)
    | inl e ↦
        let (d, m, q, f, g) = found_among cs s (
          ap is_empty (sym (if_true (is_empty (find_key n)) (find_among cs) (find_key n) e)) ∙ h) in
        (d, m, q, ground arith, rw e g)
  ]

-- If something is marked, and nothing under the empty key, then something is found.
mutual
  unfolding find_key find_among marked AreShaped next is_empty

  searched_key :
      (t : TrieNode)
      → IsShaped t
      → ((q k : Text) → marked q t ≡ some k → is_empty k ≡ false)
      → (q k : Text) → marked q t ≡ some k
      → is_empty (find_key t) ≡ false
  searched_key (node cs k true) s named q l h = named [] k refl
  searched_key (node cs k false) s named [] l h = cc
  searched_key (node cs k false) s named (c ∷ q) l h = elim (Option-cases (next c cs)) [
    | inl a ↦ ground arith
    | inr (n, a) ↦
        searched_among cs s (λ d m r j x y. named (d ∷ r) j (rw (x, marked) y)) c n q l a
          (ground arith)
  ]

  searched_among :
      (cs : Children)
      → AreShaped cs
      → ((c : ℕ) (n : TrieNode) (q k : Text)
          → next c cs ≡ some n
          → marked q n ≡ some k
          → is_empty k ≡ false)
      → (c : ℕ) (n : TrieNode) (q k : Text) → next c cs ≡ some n
      → marked q n ≡ some k
      → is_empty (find_among cs) ≡ false
  searched_among leaf s named c n q k a b = cc
  searched_among (child d m cs) (x, y, s) named c n q k a b = elim (Bool-cases (d == c)) [
    | inl e ↦
        let here = searched_key m y (λ r j i. named d m r j (ground arith) i) q k (ground arith) in
        ground arith
    | inr e ↦
        let later =
          searched_among cs s (λ f o r j u v. named f o r j (ground arith) v) c n q k (ground arith)
            b in
        ground arith
  ]

-- What is found is marked.
pub find_key-marked :
    (t : TrieNode)
    → IsShaped t
    → is_empty (find_key t) ≡ false
    → (q : Text) × (marked q t ≡ some (find_key t))
find_key-marked t s h = found_key t s h

pub find_key-found :
    (t : TrieNode)
    → IsShaped t
    → ((q k : Text) → marked q t ≡ some k → is_empty k ≡ false)
    → (q k : Text) → marked q t ≡ some k
    → is_empty (find_key t) ≡ false
find_key-found t s named q k h = searched_key t s named q k h
