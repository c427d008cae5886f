-- ===== src/IpAddress/Short.antt =====
-- `getShortenedName`: the part of a host name that the greylist compares.
use greylist.Base.{
  inr, ◌⊎◌, inl, ℕ, zero, suc, ◌+◌, ◌-◌, ◌≤◌, ◌<◌, ◌≡◌, refl, [], arith, Bool-cases, Bytes, length,
  drop, ltb, leb, if◌then◌else◌, ◌==◌, ap,
}
use greylist.IpAddress.{get_shortened_name, shorten_loop, parts_at, dot_before}

-- What the label that starts at a position counts: two if the name has seven bytes or more from there
-- on, and one if it has fewer. Nothing if no label starts there behind a dot.
abbrev pub label_weight : Bytes → ℕ → ℕ
label_weight name pos =
    if dot_before name pos then (if leb 7 (length name - pos) then 2 else 1) else 0

-- The sum over `n` positions from `pos` on.
abbrev pub weight : Bytes → ℕ → ℕ → ℕ
weight name pos zero = 0
weight name pos (suc n) = label_weight name pos + weight name (suc pos) n

-- The sum from a position to the end of the name.
abbrev pub weight_from : Bytes → ℕ → ℕ
weight_from name pos = weight name pos (length name - pos)

parts_at_eq :
    (name : Bytes) (pos parts : ℕ) → parts_at name pos parts ≡ label_weight name pos + parts
parts_at_eq name pos parts = ground arith

-- Where the loop has stopped, in a name of this length.
Met : Bytes → ℕ → ℕ × ℕ → Type 0
Met name len r =
    (n : ℕ) × (r.0 + n ≡ len)
    × (r.1 ≡ weight name r.0 n)
    × (weight name (suc r.0) (n - 1) < 3)
    × ((r.0 ≡ 0) ⊎ (3 ≤ r.1))

shorten_loop-Met :
    (name : Bytes) (len pos n parts : ℕ)
    → pos + n ≡ len
    → parts ≡ weight name pos n
    → weight name (suc pos) (n - 1) < 3
    → Met name len (shorten_loop name pos parts)
unfolding shorten_loop Met
shorten_loop-Met name len zero n parts h e l = (n, h, e, l, inl refl)
shorten_loop-Met name len (suc pos) n parts h e l = elim (Bool-cases (ltb parts 3)) [
  | inl t ↦
      rw (t, shorten_loop)
        (shorten_loop-Met name len pos (suc n) (parts_at name pos parts) (omega (arith, h))
          (omega (arith, parts_at_eq name pos parts, e)) (ground (arith, e)))
  | inr t ↦ rw (t, shorten_loop) (n, h, e, l, inr (ground arith))
]

-- The short form of a name.
pub data Shortened (name : Bytes) (s : Bytes) : Type 0 where
  nothing : weight_from name 0 ≡ 0 → s ≡ [] → Shortened name s
  whole : 0 < weight_from name 0 → weight_from name 1 < 3 → s ≡ name → Shortened name s
  labels :
      (start : ℕ)
      → 3 ≤ weight_from name start
      → weight_from name (suc start) < 3
      → s ≡ drop start name
      → Shortened name s

length_diff : (len pos n : ℕ) → pos + n ≡ len → (n ≡ len - pos) × (n - 1 ≡ len - suc pos)
length_diff len pos n h = (omega (arith, h), omega (arith, h))

-- The result for where the loop has stopped.
abbrev cut : Bytes → ℕ × ℕ → Bytes
cut name r = if r.1 == 0 then [] else drop r.0 name

cut-start :
    (name : Bytes) (parts : ℕ)
    → Met name (length name) (0, parts)
    → Shortened name (cut name (0, parts))
unfolding Met
cut-start name parts (n, h, e, l, stop) =
    let (p, q) = length_diff (length name) 0 n h in
    elim (Bool-cases (parts == 0)) [
      | inl t ↦ nothing (ground (arith, e, ap (weight name 0) p)) (rw t refl)
      | inr t ↦
          whole (ground (arith, e, ap (weight name 0) p)) (omega (arith, l, ap (weight name 1) q))
            (rw t refl)
    ]

cut-suc :
    (name : Bytes) (start parts : ℕ)
    → Met name (length name) (suc start, parts)
    → Shortened name (cut name (suc start, parts))
unfolding Met
cut-suc name start parts (n, h, e, l, inl z) = absurd (omega (arith, z))
cut-suc name start parts (n, h, e, l, inr k) =
    let (p, q) = length_diff (length name) (suc start) n h in
    labels (suc start) (omega (arith, e, k, ap (weight name (suc start)) p))
      (omega (arith, l, ap (weight name (suc (suc start))) q)) (ground (arith, k))

Met-Shortened : (name : Bytes) (r : ℕ × ℕ) → Met name (length name) r → Shortened name (cut name r)
Met-Shortened name (zero, parts) m = cut-start name parts m
Met-Shortened name (suc start, parts) m = cut-suc name start parts m

-- The shortened name of a name is as follows. A position behind a dot counts 2 if the name has
-- seven bytes or more from there on and 1 if it has fewer, and any other position 0. If the counts
-- of the whole name add up to 0, the shortened name is nothing; if they add up to more, and those
-- behind the first byte to less than 3, it is the whole name; and otherwise it is the end of the
-- name from a position where the counts from there on add up to 3 or more, and from the next
-- position on to less than 3.
pub get_shortened_name-Shortened : (name : Bytes) → Shortened name (get_shortened_name name)
unfolding get_shortened_name
get_shortened_name-Shortened name =
    let r = shorten_loop name (length name) 0 in
    Met-Shortened name r
      (shorten_loop-Met name (length name) (length name) 0 0 (omega arith) refl (omega arith))
