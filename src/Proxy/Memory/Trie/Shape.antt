-- ===== src/Proxy/Memory/Trie/Shape.antt =====
-- A prefix tree is a map at every node: its children have different runes.
use mathlib.Core.Path.{subst}
use synctv.Base.{
  ℕ, false, Option, none, some, [], ◌∷◌, ◌==◌, ◌≡◌, refl, arith, Option-cases, Bool-cases, if_true,
  if_false, inl, inr,
}
use synctv.Base.Text.{Text}
use synctv.Proxy.Memory.Trie.{
  TrieNode, node, Children, leaf, child, next, with_child, or_new, insert, unmark, descend,
}
use synctv.Proxy.Memory.Trie.Laws.{next-with_child}

-- A node's children have different runes, and so have theirs.
unfoldable mutual
  pub IsShaped : TrieNode → Type 0
  IsShaped (node cs k e) = AreShaped cs

  pub AreShaped : Children → Type 0
  AreShaped leaf = Unit {0}
  AreShaped (child c n cs) = (next c cs ≡ none) × IsShaped n × AreShaped cs

IsShaped-same : (m n : TrieNode) → some m ≡ some n → IsShaped m → IsShaped n
IsShaped-same m n h s = let e : m ≡ n = cc in subst IsShaped e s

pub next-AreShaped :
    (c : ℕ) (cs : Children) (n : TrieNode) → AreShaped cs → next c cs ≡ some n → IsShaped n
unfolding AreShaped next
next-AreShaped c leaf n s h = cc
next-AreShaped c (child d m cs) n (a, b, s) h = elim (Bool-cases (d == c)) [
  | inl e ↦ IsShaped-same m n (ground arith) b
  | inr e ↦ next-AreShaped c cs n s (ground arith)
]

with_child-AreShaped :
    (c : ℕ) (f : Option TrieNode → TrieNode) (cs : Children)
    → AreShaped cs
    → IsShaped (f (next c cs))
    → AreShaped (with_child c f cs)
unfolding AreShaped with_child next
with_child-AreShaped c f leaf s h = (refl, h, tt)
with_child-AreShaped c f (child d n cs) (a, b, s) h = elim (Bool-cases (d == c)) [
  | inl e ↦
      let h' : IsShaped (f (some n)) =
        subst (λ x. IsShaped (f x)) (if_true (d == c) (some n) (next c cs) e) h in
      rw e (a, h', s)
  | inr e ↦
      let h' : IsShaped (f (next c cs)) =
        subst (λ x. IsShaped (f x)) (if_false (d == c) (some n) (next c cs) e) h in
      rw e (ground (arith, next-with_child c d f cs), b, with_child-AreShaped c f cs s h')
]

or_new-IsShaped : (c : ℕ) (cs : Children) → AreShaped cs → IsShaped (or_new (next c cs))
unfolding AreShaped
or_new-IsShaped c cs s = elim (Option-cases (next c cs)) [
  | inl a ↦ rw a tt
  | inr (n, a) ↦ rw a (next-AreShaped c cs n s a)
]

pub insert-IsShaped : (p key : Text) (t : TrieNode) → IsShaped t → IsShaped (insert p key t)
unfolding AreShaped insert
insert-IsShaped [] key (node cs k e) s = s
insert-IsShaped (c ∷ p) key (node cs k e) s =
    with_child-AreShaped c (λ o. insert p key (or_new o)) cs s
      (insert-IsShaped p key (or_new (next c cs)) (or_new-IsShaped c cs s))

pub unmark-IsShaped : (p : Text) (t t' : TrieNode) → IsShaped t → unmark p t ≡ some t' → IsShaped t'
unfolding AreShaped unmark
unmark-IsShaped [] (node cs k e) t' s h = IsShaped-same (node cs [] false) t' h s
unmark-IsShaped (c ∷ p) (node cs k e) t' s h = elim (Option-cases (next c cs)) [
  | inl a ↦ ground arith
  | inr (n, a) ↦ elim (Option-cases (unmark p n)) [
    | inl b ↦ ground arith
    | inr (n', b) ↦ IsShaped-same (node (with_child c (λ o. n') cs) k e) t' (ground arith) (
        with_child-AreShaped c (λ o. n') cs s
          (unmark-IsShaped p n n' (next-AreShaped c cs n s a) b))
  ]
]

pub descend-IsShaped : (p : Text) (t n : TrieNode) → IsShaped t → descend p t ≡ some n → IsShaped n
unfolding AreShaped descend
descend-IsShaped [] t n s h = IsShaped-same t n h s
descend-IsShaped (c ∷ p) (node cs k e) n s h = elim (Option-cases (next c cs)) [
  | inl a ↦ ground arith
  | inr (m, a) ↦ descend-IsShaped p m n (next-AreShaped c cs m s a) (ground arith)
]
