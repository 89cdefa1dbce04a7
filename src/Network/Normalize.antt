-- ===== src/Network/Normalize.antt =====
-- The loop of `normalize_and_validate_addresses` in crates/erabi-crawler/src/network_policy.rs and
-- the ordered set that it fills.
use erabi.Base.{
  ℕ, suc, ◌+◌, ◌≤◌, ◌<◌, ◌≡◌, refl, ap, subst, ◌⊎◌, inl, inr, true, false, List, [], ◌∷◌, ok, arith,
  All, Any, Bool-cases, length,
}
use erabi.Network.{
  IpAddr, v4, v6, SocketAddr, is_public_unicast, ip_lt, socket_lt, insert, normalize,
}

-- Two addresses that the order does not tell apart are equal.
ip_trichotomy : (a b : IpAddr) → ip_lt a b ≡ false → ip_lt b a ≡ false → a ≡ b
unfolding ip_lt
ip_trichotomy (v4 a) (v4 b) g h = ground (arith, g, h)
ip_trichotomy (v4 a) (v6 b) g h = absurd (ground (arith, g))
ip_trichotomy (v6 a) (v4 b) g h = absurd (ground (arith, h))
ip_trichotomy (v6 a) (v6 b) g h = ground (arith, g, h)

socket_trichotomy : (a b : SocketAddr) → socket_lt a b ≡ false → socket_lt b a ≡ false → a ≡ b
unfolding socket_lt
socket_trichotomy a b g h = ground (arith, ip_trichotomy a.ip b.ip, g, h)

insert-All :
    (P : SocketAddr → Type 0) (a : SocketAddr) (set : List SocketAddr)
    → P a
    → All P set
    → All P (insert a set)
unfolding insert
insert-All P a [] p ps = (p, tt)
insert-All P a (b ∷ set) p (q, ps) = elim (Bool-cases (socket_lt a b)) [
  | inl y ↦ rw y (p, (q, ps))
  | inr n ↦ elim (Bool-cases (socket_lt b a)) [
    | inl y ↦ rw (n, y) (q, insert-All P a set p ps)
    | inr m ↦ rw (n, m) (q, ps)
  ]
]

insert-Any_new :
    (P : SocketAddr → Type 0) (a : SocketAddr) (set : List SocketAddr) → P a → Any P (insert a set)
unfolding insert
insert-Any_new P a [] p = inl p
insert-Any_new P a (b ∷ set) p = elim (Bool-cases (socket_lt a b)) [
  | inl y ↦ rw y (inl p)
  | inr n ↦ elim (Bool-cases (socket_lt b a)) [
    | inl y ↦ rw (n, y) (inr (insert-Any_new P a set p))
    | inr m ↦ rw (n, m) (inl (subst P (socket_trichotomy a b n m) p))
  ]
]

insert-Any_old :
    (P : SocketAddr → Type 0) (a : SocketAddr) (set : List SocketAddr)
    → Any P set
    → Any P (insert a set)
unfolding insert
insert-Any_old P a [] h = absurd h
insert-Any_old P a (b ∷ set) h = elim (Bool-cases (socket_lt a b)) [
  | inl y ↦ rw y (inr h)
  | inr n ↦ elim (Bool-cases (socket_lt b a)) [
    | inl y ↦ rw (n, y) (elim h [ inl q ↦ inl q | inr q ↦ inr (insert-Any_old P a set q) ])
    | inr m ↦ rw (n, m) h
  ]
]

length-insert : (a : SocketAddr) (set : List SocketAddr) → length (insert a set) ≤ suc (length set)
unfolding insert
length-insert a [] = omega arith
length-insert a (b ∷ set) = ground (arith, length-insert a set)

normalize_nil : (port : ℕ) (acc set : List SocketAddr) → normalize port acc [] ≡ ok set → acc ≡ set
unfolding normalize
normalize_nil port acc set h = ground (arith, h)

normalize_cons :
    (port : ℕ) (acc : List SocketAddr) (a : SocketAddr) (xs set : List SocketAddr)
    → normalize port acc (a ∷ xs) ≡ ok set
    → (is_public_unicast a.ip ≡ true)
      × (normalize port (insert (record { ip = a.ip; port = port }) acc) xs ≡ ok set)
unfolding normalize
normalize_cons port acc a xs set h = ground (arith, h)

pub normalize-eq_ok :
    (port : ℕ) (acc xs set : List SocketAddr)
    → normalize port acc xs ≡ ok set
    → All (λ a. is_public_unicast a.ip ≡ true) xs
normalize-eq_ok port acc [] set h = tt
normalize-eq_ok port acc (a ∷ xs) set h =
    let (y, g) = normalize_cons port acc a xs set h in
    (y, normalize-eq_ok port (insert (record { ip = a.ip; port = port }) acc) xs set g)

pub normalize-is_ok :
    (port : ℕ) (acc xs : List SocketAddr)
    → All (λ a. is_public_unicast a.ip ≡ true) xs
    → (set : List SocketAddr) × (normalize port acc xs ≡ ok set)
unfolding normalize
normalize-is_ok port acc [] h = (acc, refl)
normalize-is_ok port acc (a ∷ xs) (y, ys) =
    rw y (normalize-is_ok port (insert (record { ip = a.ip; port = port }) acc) xs ys)

-- What holds of every answer at the port, and of the set so far, holds of the set in the end.
pub normalize-All :
    (P : SocketAddr → Type 0) (port : ℕ) (acc xs set : List SocketAddr)
    → normalize port acc xs ≡ ok set
    → All P acc
    → All (λ a. P (record { ip = a.ip; port = port })) xs
    → All P set
normalize-All P port acc [] set h ps qs = subst (All P) (normalize_nil port acc set h) ps
normalize-All P port acc (a ∷ xs) set h ps (q, qs) =
    let b : SocketAddr = record { ip = a.ip; port = port } in
    normalize-All P port (insert b acc) xs set (normalize_cons port acc a xs set h).1
      (insert-All P b acc q ps) qs

pub normalize-Any :
    (P : SocketAddr → Type 0) (port : ℕ) (acc xs set : List SocketAddr)
    → normalize port acc xs ≡ ok set
    → Any P acc ⊎ Any (λ a. P (record { ip = a.ip; port = port })) xs
    → Any P set
normalize-Any P port acc [] set h (inl p) = subst (Any P) (normalize_nil port acc set h) p
normalize-Any P port acc [] set h (inr p) = absurd p
normalize-Any P port acc (a ∷ xs) set h p =
    let b : SocketAddr = record { ip = a.ip; port = port } in
    normalize-Any P port (insert b acc) xs set (normalize_cons port acc a xs set h).1 (elim p [
      | inl q ↦ inl (insert-Any_old P b acc q)
      | inr r ↦ elim r [ inl q ↦ inl (insert-Any_new P b acc q) | inr q ↦ inr q ]
    ])

-- The set is as large as the answers at most, and not empty where they are not.
pub length-normalize :
    (port : ℕ) (acc xs set : List SocketAddr)
    → normalize port acc xs ≡ ok set
    → length set ≤ length acc + length xs
length-normalize port acc [] set h = omega (arith, ap length (normalize_nil port acc set h))
length-normalize port acc (a ∷ xs) set h =
    let b : SocketAddr = record { ip = a.ip; port = port } in
    omega (
      arith,
      length-normalize port (insert b acc) xs set (normalize_cons port acc a xs set h).1,
      length-insert b acc,
    )

pub normalize-nonempty :
    (port : ℕ) (a : SocketAddr) (xs set : List SocketAddr)
    → normalize port [] (a ∷ xs) ≡ ok set
    → 0 < length set
normalize-nonempty port a xs set h =
    positive set (normalize-Any (λ _. Unit {0}) port [] (a ∷ xs) set h (inr (inl tt)))
  where
    positive : (ys : List SocketAddr) → Any (λ _. Unit {0}) ys → 0 < length ys
    positive [] e = absurd e
    positive (y ∷ ys) e = omega arith
