-- ===== src/IpcQueue/Ring.antt =====
-- The block area as a ring: a message may run over its end and go on at its beginning. A logical
-- address lies below twice the area's size.
use log.Prelude.{
  ℕ, suc, ◌+◌, ◌-◌, ◌≤◌, ◌<◌, ◌≡◌, refl, ◌∙◌, ◌⊎◌, List, [], ◌∷◌, ◌++◌, arith, ltb, if◌then◌else◌,
  length,
}
use log.IpcQueue.Memory.{write, read}

-- The offset of a logical address in an area of `c` bytes.
abbrev pub ring : ℕ → ℕ → ℕ
ring c x = if ltb x c then x else x - c

-- The bytes from logical address `y` on.
abbrev pub Bytes : (ℕ → ℕ) → ℕ → ℕ → List ℕ → Type 0
Bytes m c y [] = Unit {0}
Bytes m c y (b ∷ bs) = (m (ring c y) ≡ b) × Bytes m c (y + 1) bs

-- Two areas that agree on a range of logical addresses.
abbrev pub Agree : (ℕ → ℕ) → (ℕ → ℕ) → ℕ → ℕ → ℕ → Type 0
Agree m m' c y z = (a : ℕ) → y ≤ a → a < z → m' (ring c a) ≡ m (ring c a)

pub Bytes-Agree :
    (m m' : ℕ → ℕ) (c y : ℕ) (bs : List ℕ)
    → Agree m m' c y (y + length bs)
    → Bytes m c y bs
    → Bytes m' c y bs
Bytes-Agree m m' c y [] h k = tt
Bytes-Agree m m' c y (b ∷ bs) h (e, k) = (
  h y (omega arith) (omega arith) ∙ e,
  Bytes-Agree m m' c (y + 1) bs (λ a p q. h a (omega arith) (omega arith)) k,
)

pub Bytes-append :
    (m : ℕ → ℕ) (c y : ℕ) (xs ys : List ℕ)
    → Bytes m c y xs
    → Bytes m c (y + length xs) ys
    → Bytes m c y (xs ++ ys)
Bytes-append m c y [] ys h k = let e : y + 0 ≡ y = omega arith in rw e at k
Bytes-append m c y (x ∷ xs) ys (e, h) k =
    let f : y + suc (length xs) ≡ y + 1 + length xs = omega arith in
    (e, Bytes-append m c (y + 1) xs ys h (rw f at k))

pub Bytes-left : (m : ℕ → ℕ) (c y : ℕ) (xs ys : List ℕ) → Bytes m c y (xs ++ ys) → Bytes m c y xs
Bytes-left m c y [] ys h = tt
Bytes-left m c y (x ∷ xs) ys (e, h) = (e, Bytes-left m c (y + 1) xs ys h)

pub Bytes-right :
    (m : ℕ → ℕ) (c y : ℕ) (xs ys : List ℕ) → Bytes m c y (xs ++ ys) → Bytes m c (y + length xs) ys
Bytes-right m c y [] ys h = let e : y ≡ y + 0 = omega arith in rw e at h
Bytes-right m c y (x ∷ xs) ys (e, h) =
    let f : y + 1 + length xs ≡ y + suc (length xs) = omega arith in
    rw f at (Bytes-right m c (y + 1) xs ys h)

pub Bytes-empty : (m : ℕ → ℕ) (c y : ℕ) (bs : List ℕ) → length bs ≡ 0 → Bytes m c y bs
Bytes-empty m c y [] h = tt
Bytes-empty m c y (b ∷ bs) h = absurd (omega arith)

-- A run of `n` logical addresses from `y` that lies at offset `o` without a break.
abbrev pub Straight : ℕ → ℕ → ℕ → ℕ → Type 0
Straight c y o n = ((o ≡ y) × (y + n ≤ c)) ⊎ ((c + o ≡ y) ⊎ (n ≡ 0))

pub Bytes-write :
    (m : ℕ → ℕ) (c y o : ℕ) (bs : List ℕ) → Straight c y o (length bs) → Bytes (write m o bs) c y bs
unfolding write
Bytes-write m c y o [] s = tt
Bytes-write m c y o (b ∷ bs) s = (
  ground arith,
  Bytes-Agree (write m (o + 1) bs) (write m o (b ∷ bs)) c (y + 1) bs (λ a p q. ground arith)
      (Bytes-write m c (y + 1) (o + 1) bs (ground arith)),
)

pub read_lem :
    (m : ℕ → ℕ) (c y o : ℕ) (bs : List ℕ)
    → Straight c y o (length bs)
    → Bytes m c y bs
    → read m o (length bs) ≡ bs
unfolding read
read_lem m c y o [] s h = refl
read_lem m c y o (b ∷ bs) s (e, h) =
    let at_o : ring c y ≡ o = ground arith in
    ground (arith, read_lem m c (y + 1) (o + 1) bs (ground arith) h)

pub Bytes-rebase :
    (m : ℕ → ℕ) (c y : ℕ) (bs : List ℕ) → y + length bs ≤ c → Bytes m c (c + y) bs → Bytes m c y bs
Bytes-rebase m c y [] h k = tt
Bytes-rebase m c y (b ∷ bs) h (e, k) =
    let same : ring c (c + y) ≡ ring c y = ground arith in
    let next : c + y + 1 ≡ c + (y + 1) = omega arith in
    (rw same at e, Bytes-rebase m c (y + 1) bs (omega arith) (rw next at k))
