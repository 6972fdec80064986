-- ===== src/Identifiers/Scope.antt =====
-- What the ids keep apart: documents, and the connections whose prefixes select them.
use mathlib.Core.List.{append_assoc}
use knowledge_graph_mvp.Prelude.{
  ==-refl, All, Text, [], arith, decimal, list_eq, nat_eq, refl, starts_with, string_eq, true, ℕ,
  ◌++◌, ◌↔◌, ◌∷◌, ◌≡◌,
}
use knowledge_graph_mvp.Identifiers.{
  connection_prefix, document_object_id, folder_object_id, group_object_id, digest,
}
use knowledge_graph_mvp.Identifiers.Decimal.{IsDigit, decimal-injective, decimal-IsDigit}

starts_with-append : (ps cs : Text) → starts_with ps (ps ++ cs) ≡ true
unfolding starts_with
starts_with-append [] cs = refl
starts_with-append (p ∷ ps) cs = rw (==-refl p) (starts_with-append ps cs)

-- Digits in front of an underscore can be told off.
split_digits :
    (xs ys r q : Text)
    → All IsDigit xs
    → All IsDigit ys
    → xs ++ b'_' ∷ r ≡ ys ++ b'_' ∷ q
    → (xs ≡ ys) × (r ≡ q)
split_digits [] [] r q h k e = (refl, cc)
split_digits [] (y ∷ ys) r q h k e = absurd (omega (arith, k.0.1, heads e))
  where
    heads : b'_' ∷ r ≡ y ∷ (ys ++ b'_' ∷ q) → 95 ≡ y
    heads p = cc
split_digits (x ∷ xs) [] r q h k e = absurd (omega (arith, h.0.1, heads e))
  where
    heads : x ∷ (xs ++ b'_' ∷ r) ≡ b'_' ∷ q → x ≡ 95
    heads p = cc
split_digits (x ∷ xs) (y ∷ ys) r q h k e =
    let (p, p') = split_digits xs ys r q h.1 k.1 (cc) in (cc, p')

-- The same over prefixes: a text that begins with one run of digits and an underscore.
prefix_digits :
    (xs ys q : Text)
    → All IsDigit xs
    → All IsDigit ys
    → starts_with (xs ++ b'_' ∷ []) (ys ++ b'_' ∷ q) ≡ true
    → xs ≡ ys
unfolding starts_with
prefix_digits [] [] q h k e = refl
prefix_digits [] (y ∷ ys) q h k e = ground (arith, k.0)
prefix_digits (x ∷ xs) [] q h k e = ground (arith, h.0)
prefix_digits (x ∷ xs) (y ∷ ys) q h k e = ground (arith, prefix_digits xs ys q h.1 k.1)

-- Two documents have the same object id only if they are the same row of the same connection.
pub document_object_id-injective :
    (c c' d d' : ℕ) → document_object_id c d ≡ document_object_id c' d' → (c ≡ c') × (d ≡ d')
unfolding document_object_id
document_object_id-injective c c' d d' e =
    let (p, q) =
      split_digits (decimal c) (decimal c') (b'd' ∷ decimal d) (b'd' ∷ decimal d')
        (decimal-IsDigit c) (decimal-IsDigit c') (tails e) in
    (decimal-injective c c' p, decimal-injective d d' (tail_of q))
  where
    tails :
        b'c' ∷ (decimal c ++ b'_' ∷ b'd' ∷ decimal d)
          ≡ b'c' ∷ (decimal c' ++ b'_' ∷ b'd' ∷ decimal d')
        → decimal c ++ b'_' ∷ b'd' ∷ decimal d ≡ decimal c' ++ b'_' ∷ b'd' ∷ decimal d'
    tails p = cc

    tail_of : b'd' ∷ decimal d ≡ b'd' ∷ decimal d' → decimal d ≡ decimal d'
    tail_of p = cc

-- A prefix selects its own connection's documents, and no other connection's, `c1_` not `c12_d3`.
pub connection_prefix_iff :
    (c c' d : ℕ) → (starts_with (connection_prefix c) (document_object_id c' d) ≡ true) ↔ (c ≡ c')
unfolding connection_prefix document_object_id starts_with
connection_prefix_iff c c' d = (
  λ h. decimal-injective c c' (
      prefix_digits (decimal c) (decimal c') (b'd' ∷ decimal d) (decimal-IsDigit c)
        (decimal-IsDigit c') h),
  λ p. rw p (own c'),
)
  where
    own :
        (k : ℕ) → starts_with (decimal k ++ b'_' ∷ []) (decimal k ++ b'_' ∷ b'd' ∷ decimal d) ≡ true
    own k =
        rw (← append_assoc (decimal k) (b'_' ∷ []) (b'd' ∷ decimal d))
          (starts_with-append (decimal k ++ b'_' ∷ []) (b'd' ∷ decimal d))

starts_with-middle : (ps qs cs : Text) → starts_with (ps ++ qs) (ps ++ (qs ++ cs)) ≡ true
unfolding starts_with
starts_with-middle [] qs cs = starts_with-append qs cs
starts_with-middle (p ∷ ps) qs cs = rw (==-refl p) (starts_with-middle ps qs cs)

-- The ids of folders, groups and documents of a connection begin with its prefix.
pub prefix-folder :
    (sha256 : Text → Text) (c : ℕ) (x : Text)
    → starts_with (connection_prefix c) (folder_object_id sha256 c x) ≡ true
unfolding starts_with connection_prefix folder_object_id
prefix-folder sha256 c x = starts_with-middle (decimal c) (b'_' ∷ []) (b'f' ∷ digest sha256 c x)

pub prefix-group :
    (sha256 : Text → Text) (c : ℕ) (x : Text)
    → starts_with (connection_prefix c) (group_object_id sha256 c x) ≡ true
unfolding starts_with connection_prefix group_object_id
prefix-group sha256 c x = starts_with-middle (decimal c) (b'_' ∷ []) (b'g' ∷ digest sha256 c x)

pub prefix-document : (c d : ℕ) → starts_with (connection_prefix c) (document_object_id c d) ≡ true
unfolding starts_with connection_prefix document_object_id
prefix-document c d = starts_with-middle (decimal c) (b'_' ∷ []) (b'd' ∷ decimal d)
