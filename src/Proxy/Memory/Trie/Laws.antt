-- ===== src/Proxy/Memory/Trie/Laws.antt =====
-- Which keys a prefix tree marks, after it is changed.
use mathlib.Core.Path.{subst}
use synctv.Base.{
  ℕ, Bool, false, Option, none, some, [], ◌∷◌, ◌++◌, ◌==◌, ◌≡◌, refl, arith, if◌then◌else◌,
  Option-cases, inl, inr,
}
use synctv.Base.Text.{Text, texts_eq}
use synctv.Proxy.Memory.Trie.{
  TrieNode, node, Children, leaf, child, new_trie_node, next, with_child, or_new, insert, unmark,
  descend,
}

-- The key that is marked at the end of a path.
unfoldable pub marked : Text → TrieNode → Option Text
unfolding next
marked [] (node cs k e) = if e then some k else none
marked (c ∷ p) (node cs k e) = elim (next c cs) [ none ↦ none | some n ↦ marked p n ]

pub marked_new : (p : Text) → marked p new_trie_node ≡ none
unfolding marked
marked_new [] = refl
marked_new (c ∷ p) = refl

pub next-with_child :
    (c d : ℕ) (f : Option TrieNode → TrieNode) (cs : Children)
    → next d (with_child c f cs) ≡ (if c == d then some (f (next c cs)) else next d cs)
unfolding next with_child
next-with_child c d f leaf = ground arith
next-with_child c d f (child b n cs) = ground (arith, next-with_child c d f cs)

marked-or_new :
    (p : Text) (o : Option TrieNode)
    → marked p (or_new o) ≡ elim o as (λ x. Option Text) [ none ↦ none | some n ↦ marked p n ]
unfolding marked
marked-or_new p none = marked_new p
marked-or_new p (some n) = refl

pub marked-insert :
    (p key q : Text) (t : TrieNode)
    → marked q (insert p key t) ≡ (if texts_eq p q then some key else marked q t)
unfolding marked insert texts_eq
marked-insert [] key [] (node cs k e) = refl
marked-insert [] key (d ∷ q) (node cs k e) = refl
marked-insert (c ∷ p) key [] (node cs k e) = refl
marked-insert (c ∷ p) key (d ∷ q) (node cs k e) = ground (
  arith,
  next-with_child c d (λ o. insert p key (or_new o)) cs,
  marked-insert p key q (or_new (next c cs)),
  marked-or_new q (next c cs),
)

-- One step of the removal, given what the rest of the path does.
unmarked :
    (c : ℕ) (p q : Text) (cs : Children) (k : Text) (e : Bool) (n n' : TrieNode)
    → next c cs ≡ some n
    → ((r : Text) → marked r n' ≡ (if texts_eq p r then none else marked r n))
    → marked q (node (with_child c (λ o. n') cs) k e)
      ≡ (if texts_eq (c ∷ p) q then none else marked q (node cs k e))
unfolding marked texts_eq
unmarked c p [] cs k e n n' a b = refl
unmarked c p (d ∷ q) cs k e n n' a b = ground (arith, next-with_child c d (λ o. n') cs, b q)

pub marked-unmark :
    (p q : Text) (t t' : TrieNode)
    → unmark p t ≡ some t'
    → marked q t' ≡ (if texts_eq p q then none else marked q t)
unfolding marked unmark texts_eq
marked-unmark [] [] (node cs k e) t' h = ground arith
marked-unmark [] (d ∷ q) (node cs k e) t' h = ground arith
marked-unmark (c ∷ p) q (node cs k e) t' h = elim (Option-cases (next c cs)) [
  | inl a ↦ ground arith
  | inr (n, a) ↦ elim (Option-cases (unmark p n)) [
    | inl b ↦ ground arith
    | inr (n', b) ↦
        let e' : node (with_child c (λ o. n') cs) k e ≡ t' = ground arith in
        subst (λ x. marked q x ≡ (if texts_eq (c ∷ p) q then none else marked q (node cs k e))) e'
          (unmarked c p q cs k e n n' a (λ r. marked-unmark p r n n' b))
  ]
]

-- A marked key can be taken out.
pub unmark-some :
    (p : Text) (t : TrieNode) (k : Text)
    → marked p t ≡ some k
    → (t' : TrieNode) × (unmark p t ≡ some t')
unfolding marked unmark
unmark-some [] (node cs k e) key h = (node cs [] false, refl)
unmark-some (c ∷ p) (node cs k e) key h = elim (Option-cases (next c cs)) [
  | inl a ↦ ground arith
  | inr (n, a) ↦
      let (n', u) = unmark-some p n key (ground arith) in
      (node (with_child c (λ o. n') cs) k e, ground arith)
]

pub marked-descend :
    (p q : Text) (t n : TrieNode) → descend p t ≡ some n → marked q n ≡ marked (p ++ q) t
unfolding marked descend
marked-descend [] q t n h = ground arith
marked-descend (c ∷ p) q (node cs k e) n h = elim (Option-cases (next c cs)) [
  | inl a ↦ ground arith
  | inr (m, a) ↦ ground (arith, marked-descend p q m n)
]

pub descend-none : (p q : Text) (t : TrieNode) → descend p t ≡ none → marked (p ++ q) t ≡ none
unfolding marked descend
descend-none [] q t h = cc
descend-none (c ∷ p) q (node cs k e) h = elim (Option-cases (next c cs)) [
  | inl a ↦ ground arith
  | inr (m, a) ↦ ground (arith, descend-none p q m)
]
