-- ===== src/Icache/Owned.antt =====
-- Lists of blocks in use, and what freeing them one by one does, for `itrunc` of xv6A1/fs.c.
use native.Mathlib.Decide.{ℕ_discrete}
use operating_system_design.Prelude.{
  ℕ, ◌<◌, ◌≡◌, ◌≢◌, refl, sym, ap, ◌∙◌, Bool, true, false, not, ◌&&◌, ◌||◌, some, List, [], ◌∷◌,
  ◌++◌, ◌==◌, arith, Bool-cases, inl, inr, eq→==, ne→==, ==-refl,
}
use operating_system_design.Fs.{SuperBlock, Store, bblock}
use operating_system_design.Fs.Bitmap.{used}
use operating_system_design.Fs.Release.{HasSuper, HasSuper-same, bfree-used}
use operating_system_design.Icache.{free_all}

-- An address in a list. Address 0 stands for no block.
abbrev pub lists : ℕ → List ℕ → Bool
lists x [] = false
lists x (a ∷ addrs) = (not (a == 0) && a == x) || lists x addrs

abbrev pub IsBitmap : SuperBlock → ℕ → Type 0
IsBitmap sb x = (b : ℕ) × (b < sb.size) × (x ≡ bblock b sb)

-- The blocks listed are blocks of the disk, in use, and listed once.
abbrev pub Owned : SuperBlock → Store → List ℕ → Type 0
Owned sb s [] = Unit
Owned sb s (a ∷ addrs) =
    (a ≢ 0 → (a < sb.size) × (used sb s a ≡ true) × (lists a addrs ≡ false)) × Owned sb s addrs

-- The blocks listed are free now, no other mark has changed, nor a block outside the bitmap.
pub record Freed (sb : SuperBlock) (s : Store) (addrs : List ℕ) (s' : Store) : Type 0 where
  pub marks : (x : ℕ) → used sb s' x ≡ (not (lists x addrs) && used sb s x)
  pub others : (x : ℕ) → ¬ IsBitmap sb x → s'.blocks x ≡ s.blocks x
  pub bytes : (x i : ℕ) → s'.blocks x i < 256

listed_too : (x a : ℕ) (addrs : List ℕ) → lists x addrs ≡ true → lists x (a ∷ addrs) ≡ true
listed_too x a addrs l = elim (Bool-cases (not (a == 0) && a == x)) [
  | inl here ↦ rw here refl
  | inr other ↦ rw other l
]

apart_from :
    (x a : ℕ) (addrs : List ℕ) → lists a addrs ≡ false → lists x addrs ≡ true → (a == x) ≡ false
apart_from x a addrs once l = elim (ℕ_discrete a x) [
  | yes e ↦ let r : lists a addrs ≡ true = ap (λ k. lists k addrs) e ∙ l in cc (r, once)
  | no ne ↦ ne→== _ _ ne
]

-- Freed before or freed now.
pub both : (q l u : Bool) → (not l && (not q && u)) ≡ (not (q || l) && u)
both true true u = refl
both true false u = refl
both false true u = refl
both false false u = refl

or_true : (b : Bool) → (b || true) ≡ true
or_true true = refl
or_true false = refl

or_false : (b c : Bool) → (b || c) ≡ false → b ≡ false
or_false true c e = e
or_false false c e = refl

-- Owned blocks stay owned when blocks that are not among them are freed.
pub Owned-after :
    (sb : SuperBlock) (s s' : Store) (addrs : List ℕ)
    → ((x : ℕ) → lists x addrs ≡ true → used sb s x ≡ true → used sb s' x ≡ true)
    → Owned sb s addrs
    → Owned sb s' addrs
Owned-after sb s s' [] keep o = tt
Owned-after sb s s' (a ∷ addrs) keep o = (
  λ ne.
      let (lt, busy, once) = o.0 ne in (lt, keep a (rw (ne→== _ _ ne, ==-refl a) refl) busy, once),
  Owned-after sb s s' addrs (λ x l. keep x (listed_too x a addrs l)) o.1,
)

pub free_all-Freed :
    (sb : SuperBlock) (addrs : List ℕ) (s : Store)
    → ((x i : ℕ) → s.blocks x i < 256)
    → HasSuper sb s
    → Owned sb s addrs
    → (s' : Store) × (free_all addrs s ≡ some s') × Freed sb s addrs s'
unfolding free_all
free_all-Freed sb [] s bytes super o =
    (s, refl, record { marks = λ x. refl; others = λ x n. refl; bytes = bytes })
free_all-Freed sb (a ∷ addrs) s bytes super o = elim (ℕ_discrete a 0) [
  | yes z ↦
      let (s', e, f) = free_all-Freed sb addrs s bytes super o.1 in
      (
        s',
        rw (eq→== _ _ z) e,
        record { marks = λ x. rw (eq→== _ _ z) (f.marks x); others = f.others; bytes = f.bytes },
      )
  | no ne ↦
      let (lt, busy, once) = o.0 ne in
      let (s1, e1, marks, others, bytes1) = bfree-used sb a s bytes super busy in
      let super1 : HasSuper sb s1 =
        HasSuper-same sb s s1 super (others 1 (omega (arith, super.below))) in
      let o1 : Owned sb s1 addrs =
        Owned-after sb s s1 addrs (λ x l u. marks x ∙ rw (apart_from x a addrs once l) u) o.1 in
      let (s', e, f) = free_all-Freed sb addrs s1 bytes1 super1 o1 in
      (
        s',
        rw (ne→== _ _ ne, e1) e,
        record {
          marks = λ x.
              f.marks x ∙ rw (ne→== _ _ ne, marks x) (both (a == x) (lists x addrs) (used sb s x));
          others = λ x n. f.others x n ∙ others x (λ q. n (a, lt, q));
          bytes = f.bytes;
        },
      )
]

pub Freed-HasSuper :
    (sb : SuperBlock) (s s' : Store) (addrs : List ℕ)
    → HasSuper sb s
    → Freed sb s addrs s'
    → HasSuper sb s'
Freed-HasSuper sb s s' addrs h f =
    HasSuper-same sb s s' h (f.others 1 (λ (b, lt, e). absurd (omega (arith, e, h.below))))

pub lists-append : (x : ℕ) (xs ys : List ℕ) → lists x (xs ++ ys) ≡ (lists x xs || lists x ys)
lists-append x [] ys = refl
lists-append x (a ∷ xs) ys = elim (Bool-cases (not (a == 0) && a == x)) [
  | inl here ↦ rw here refl
  | inr other ↦ rw other (lists-append x xs ys)
]

-- The blocks of two lists freed one after the other.
pub Freed-append :
    (sb : SuperBlock) (s s' s'' : Store) (xs ys : List ℕ)
    → Freed sb s xs s'
    → Freed sb s' ys s''
    → Freed sb s (xs ++ ys) s''
Freed-append sb s s' s'' xs ys f g = record {
  marks = λ x.
      g.marks x
      ∙ rw (f.marks x, lists-append x xs ys) (both (lists x xs) (lists x ys) (used sb s x));
  others = λ x n. g.others x n ∙ f.others x n;
  bytes = g.bytes;
}

pub Owned-front :
    (sb : SuperBlock) (s : Store) (xs ys : List ℕ) → Owned sb s (xs ++ ys) → Owned sb s xs
Owned-front sb s [] ys o = tt
Owned-front sb s (a ∷ xs) ys o = (
  λ ne.
      let (lt, busy, once) = o.0 ne in
      (lt, busy, or_false (lists a xs) (lists a ys) (sym (lists-append a xs ys) ∙ once)),
  Owned-front sb s xs ys o.1,
)

pub Owned-back :
    (sb : SuperBlock) (s : Store) (xs ys : List ℕ)
    → Owned sb s (xs ++ ys)
    → Owned sb s ys × ((x : ℕ) → lists x ys ≡ true → lists x xs ≡ false)
Owned-back sb s [] ys o = (o, λ x l. refl)
Owned-back sb s (a ∷ xs) ys o =
    let (rest, clear) = Owned-back sb s xs ys o.1 in
    (
      rest,
      λ x l. elim (Bool-cases (not (a == 0) && a == x)) [
        | inl here ↦
            let ne : a ≢ 0 = ground (arith, here) in
            let e : a ≡ x = ground (arith, here) in
            let r : lists a (xs ++ ys) ≡ true =
              lists-append a xs ys ∙ rw (e, l) (or_true (lists x xs)) in
            cc (r, (o.0 ne).2)
        | inr other ↦ rw other (clear x l)
      ],
    )
