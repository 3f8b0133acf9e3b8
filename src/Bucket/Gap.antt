-- ===== src/Bucket/Gap.antt =====
-- src/gdbmdelete.c: the loop that closes the gap left by a deleted element.
use gdbm.Prelude.{
  ℕ, ◌+◌, ◌*◌, ◌%◌, ◌≤◌, ◌<◌, ◌≡◌, ◌≢◌, ◌⊎◌, inl, inr, refl, Bool, true, false, some, List, length,
  length-set, set, ◌==◌, ltb, if◌then◌else◌, Bool-cases, Option-cases, some_inj, ap, sym, ◌∙◌,
  arith,
}
use mathlib.Core.Path.{subst}
use gdbm.Bucket.{BucketElement, at, is_used, home_of, cleared, moves}
use gdbm.Bucket.Cyclic.{dist, dist-lt, dist_inj, moves_iff}
use gdbm.Bucket.Probe.{IsProbed, at-set}
use gdbm.Bucket.Weights.{sum_at, sum_at-set, sum_at-le, weight, weight-set_used, weight-set_free}

-- On the way from home to i, first g and then j.
dist_through :
    (n home g j i : ℕ)
    → home < n
    → g < n
    → j < n
    → i < n
    → dist n home g < dist n home i
    → dist n g j < dist n g i
    → dist n home j < dist n home i
unfolding dist
dist_through n home g j i h1 h2 h3 h4 a b = ground arith

-- An element that is nearer to its home than to the gap has its home behind the gap.
dist_behind :
    (n home g j : ℕ)
    → home < n
    → g < n
    → j < n
    → dist n home j < dist n home g
    → dist n home j < dist n g j
unfolding dist
dist_behind n home g j h1 h2 h3 a = ground arith

dist_apart :
    (n home g i : ℕ)
    → home < n
    → g < n
    → i < n
    → dist n home i < dist n g i
    → dist n home g < dist n home i
    → ⊥
unfolding dist
dist_apart n home g i h1 h2 h3 a b = ground arith

-- The table has one gap: every used element is reached from its home by used elements and the gap.
pub record HasGap (n g : ℕ) (table : List BucketElement) : Type 0 where
  pub len : length table ≡ n
  pub inside : g < n
  pub free : is_used (at table g) ≡ false
  pub probed :
      (i h : ℕ)
      → i < n
      → (at table i).hash_value ≡ some h
      → (k : ℕ) → k < n
      → dist n (h % n) k < dist n (h % n) i
      → (is_used (at table k) ≡ true) ⊎ (k ≡ g)

-- The elements less than `span` behind the gap do not need it.
abbrev pub Scanned : ℕ → ℕ → ℕ → List BucketElement → Type 0
Scanned n g span table =
    (i h : ℕ)
    → i < n
    → (at table i).hash_value ≡ some h
    → dist n g i < span
    → dist n (h % n) i < dist n g i

-- An element's way from its home, while it is used.
unfoldable pub way : ℕ → ℕ → BucketElement → ℕ
way n i e = if is_used e then dist n (home_of n e) i else 0

pub ways : ℕ → List BucketElement → ℕ
ways n table = sum_at (way n) 0 table

pub used_of : (e : BucketElement) (h : ℕ) → e.hash_value ≡ some h → is_used e ≡ true
unfolding is_used
used_of e h q = rw q refl

pub hash_of_used :
    (e : BucketElement)
    → is_used e ≡ true
    → (h : ℕ) × (e.hash_value ≡ some h) × (is_used (cleared e) ≡ false)
unfolding is_used
hash_of_used e u = elim (Option-cases e.hash_value) [
  | inl q ↦ absurd (ground arith)
  | inr q ↦ (q.0, q.1, refl)
]

pub not_both : {b : Bool} → b ≡ true → b ≡ false → ⊥
not_both p q = cc

way_free : (n i : ℕ) (e : BucketElement) → is_used e ≡ false → way n i e ≡ 0
unfolding way
way_free n i e f = ground arith

way_used :
    (n i : ℕ) (e : BucketElement) (h : ℕ)
    → e.hash_value ≡ some h
    → way n (0 + i) e ≡ dist n (h % n) i
unfolding way is_used
way_used n i e h q = let z : 0 + i ≡ i = omega arith in rw (z, q) refl

module _ (n g : ℕ) (table : List BucketElement) (gap : HasGap n g table) where
  -- With the whole table scanned, or up to an unused element, the gap is needed by no element.
  closed :
      (span : ℕ)
      → Scanned n g span table
      → ((i h : ℕ)
          → i < n
          → (at table i).hash_value ≡ some h
          → span ≤ dist n g i
          → dist n (h % n) g < dist n (h % n) i
          → ⊥)
      → IsProbed table
  closed span scanned far i h li q k lk d =
      let li' = subst (λ (m : ℕ). i < m) gap.len li in
      let lk' = subst (λ (m : ℕ). k < m) gap.len lk in
      let d' = subst (λ (m : ℕ). dist m (h % m) k < dist m (h % m) i) gap.len d in
      let home : h % n < n = grind arith in
      elim (gap.probed i h li' q k lk' d') [
        | inl used ↦ used
        | inr at_gap ↦
            let e = subst (λ (x : ℕ). dist n (h % n) x < dist n (h % n) i) at_gap d' in
            elim (Bool-cases (ltb (dist n g i) span)) [
              | inl near ↦ absurd (
                  dist_apart n (h % n) g i home gap.inside li' (scanned i h li' q (ground arith)) e)
              | inr rest ↦ absurd (far i h li' q (ground arith) e)
            ]
      ]

  pub closed_all : Scanned n g n table → IsProbed table
  closed_all scanned =
      closed n scanned
        (λ i h li q le d. let b = dist-lt n g i gap.inside li in absurd (omega arith))

  pub closed_at :
      (j : ℕ)
      → j < n
      → is_used (at table j) ≡ false
      → g ≢ j
      → Scanned n g (dist n g j) table
      → IsProbed table
  closed_at j lj free ne scanned = closed (dist n g j) scanned (λ i h li q le d.
      let home : h % n < n = (let p = gap.inside in grind arith) in
      elim (Bool-cases (dist n g j == dist n g i)) [
        | inl e ↦
            let same = dist_inj n g j i gap.inside lj li (ground arith) in
            not_both (used_of (at table i) h q)
              (subst (λ (x : ℕ). is_used (at table x) ≡ false) same free)
        | inr e ↦
            elim (gap.probed i h li q j lj
              (dist_through n (h % n) g j i home gap.inside lj li d (ground arith))) [
                | inl used ↦ not_both used free
                | inr at_gap ↦ ne (sym at_gap)
              ]
      ])

  module _ (j h : ℕ) (lj : j < n) (q : (at table j).hash_value ≡ some h) (ne : g ≢ j) where
    pub Scanned-next :
        moves g j (h % n) ≡ false
        → Scanned n g (dist n g j) table
        → Scanned n g (dist n g j + 1) table
    Scanned-next stays scanned i h' li q' near =
        let p = gap.inside in
        let home : h % n < n = grind arith in
        elim (Bool-cases (dist n g i == dist n g j)) [
          | inr e ↦ scanned i h' li q' (ground arith)
          | inl e ↦
              let same : i ≡ j = dist_inj n g i j gap.inside li lj (ground arith) in
              let hh : h' ≡ h =
                some_inj (sym q' ∙ ap (λ (x : ℕ). (at table x).hash_value) same ∙ q) in
              elim (moves_iff n g j (h % n) gap.inside lj home ne) [
                | inl m ↦ absurd (not_both m.0 stays)
                | inr m ↦ rw (hh, same) (dist_behind n (h % n) g j home gap.inside lj m.1)
              ]
        ]

    abbrev pub moved : List BucketElement
    moved = set (set table g (at table j)) j (cleared (at table j))

    length-moved : length moved ≡ n
    length-moved =
        length-set (set table g (at table j)) j (cleared (at table j))
        ∙ length-set table g (at table j)
        ∙ gap.len

    -- What stands where after the move.
    moved-at :
        (k : ℕ)
        → ((k ≡ j) × (is_used (at moved k) ≡ false))
          ⊎ ((k ≡ g) × (at moved k ≡ at table j))
          ⊎ ((k ≢ j) × (k ≢ g) × (at moved k ≡ at table k))
    moved-at k =
        let lg = subst (λ (m : ℕ). g < m) (sym gap.len) gap.inside in
        let lj' = subst (λ (m : ℕ). j < m) (sym (length-set table g (at table j) ∙ gap.len)) lj in
        elim (at-set (set table g (at table j)) j k (cleared (at table j)) lj') [
          | inl a ↦ inl (a.0, rw a.1 (hash_of_used (at table j) (used_of (at table j) h q)).2)
          | inr a ↦ elim (at-set table g k (at table j) lg) [
            | inl b ↦ inr (inl (b.0, a.1 ∙ b.1))
            | inr b ↦ inr (inr (a.0, b.0, a.1 ∙ b.1))
          ]
        ]

    -- The moved element comes nearer to its home.
    nearer : moves g j (h % n) ≡ true → dist n (h % n) g < dist n (h % n) j
    nearer goes =
        let p = gap.inside in
        elim (moves_iff n g j (h % n) gap.inside lj (grind arith) ne) [
          | inl m ↦ m.1
          | inr m ↦ absurd (not_both goes m.0)
        ]

    still_used :
        (i k : ℕ)
        → i < n
        → k < n
        → (h' : ℕ) → (at table i).hash_value ≡ some h'
        → dist n (h' % n) k < dist n (h' % n) i
        → k ≢ g
        → is_used (at table k) ≡ true
    still_used i k li lk h' q' d kg = elim (gap.probed i h' li q' k lk d) [
      | inl used ↦ used
      | inr at_gap ↦ absurd (kg at_gap)
    ]

    moved_probed :
        moves g j (h % n) ≡ true
        → (i h' : ℕ) → i < n
        → (at moved i).hash_value ≡ some h'
        → (k : ℕ) → k < n
        → dist n (h' % n) k < dist n (h' % n) i
        → (is_used (at moved k) ≡ true) ⊎ (k ≡ j)
    moved_probed goes i h' li q' k lk d = elim (moved-at k) [
      | inl a ↦ inr a.0
      | inr (inl b) ↦ inl (subst (λ x. is_used x ≡ true) (sym b.1) (used_of (at table j) h q))
      | inr (inr c) ↦ inl (
          subst (λ x. is_used x ≡ true) (sym c.2)
            (elim (moved-at i) [
              | inl a ↦ absurd (not_both (used_of (at moved i) h' q') a.1)
              | inr (inl b) ↦
                  let hh : h' ≡ h =
                    some_inj (sym q' ∙ ap (λ (x : BucketElement). x.hash_value) b.1 ∙ q) in
                  let near = nearer goes in
                  let d' : dist n (h % n) k < dist n (h % n) g = rw (sym hh, sym b.0) d in
                  still_used j k lj lk h q (omega arith) c.1
              | inr (inr e) ↦
                  still_used i k li lk h' (sym (ap (λ (x : BucketElement). x.hash_value) e.2) ∙ q')
                    d c.1
            ]))
    ]

    pub moved-HasGap : moves g j (h % n) ≡ true → HasGap n j moved
    moved-HasGap goes = record {
      len = length-moved;
      inside = lj;
      free = elim (moved-at j) [
        | inl a ↦ a.1
        | inr (inl b) ↦ absurd (ne (sym b.0))
        | inr (inr c) ↦ absurd (c.0 refl)
      ];
      probed = moved_probed goes;
    }

    other_used : is_used (at (set table g (at table j)) j) ≡ true
    other_used =
        let lg = subst (λ (m : ℕ). g < m) (sym gap.len) gap.inside in
        elim (at-set table g j (at table j) lg) [
          | inl b ↦ absurd (ne (sym b.0))
          | inr b ↦ rw b.1 (used_of (at table j) h q)
        ]

    same_other : at (set table g (at table j)) j ≡ at table j
    same_other =
        let lg = subst (λ (m : ℕ). g < m) (sym gap.len) gap.inside in
        elim (at-set table g j (at table j) lg) [ inl b ↦ absurd (ne (sym b.0)) | inr b ↦ b.1 ]

    pub weight-moved : (w : BucketElement → ℕ) → weight w moved ≡ weight w table
    weight-moved w =
        let lg = subst (λ (m : ℕ). g < m) (sym gap.len) gap.inside in
        let lj' = subst (λ (m : ℕ). j < m) (sym (length-set table g (at table j) ∙ gap.len)) lj in
        let used = used_of (at table j) h q in
        let first = weight-set_used w table g (at table j) lg gap.free used in
        let second =
          weight-set_free w (set table g (at table j)) j (cleared (at table j)) lj' other_used
            (hash_of_used (at table j) used).2 in
        let same = ap w same_other in omega (arith, first, second, same)

    pub ways-moved : moves g j (h % n) ≡ true → ways n moved < ways n table
    unfolding ways
    ways-moved goes =
        let lg = subst (λ (m : ℕ). g < m) (sym gap.len) gap.inside in
        let lj' = subst (λ (m : ℕ). j < m) (sym (length-set table g (at table j) ∙ gap.len)) lj in
        let used = used_of (at table j) h q in
        let first = sum_at-set (way n) 0 table g (at table j) lg in
        let second = sum_at-set (way n) 0 (set table g (at table j)) j (cleared (at table j)) lj' in
        let a0 : way n (0 + g) (at table g) ≡ 0 = way_free n (0 + g) (at table g) gap.free in
        let a1 : way n (0 + g) (at table j) ≡ dist n (h % n) g = way_used n g (at table j) h q in
        let a2 : way n (0 + j) (at (set table g (at table j)) j) ≡ dist n (h % n) j =
          rw same_other (way_used n j (at table j) h q) in
        let a3 : way n (0 + j) (cleared (at table j)) ≡ 0 =
          way_free n (0 + j) (cleared (at table j)) (hash_of_used (at table j) used).2 in
        let near = nearer goes in omega (arith, first, second, a0, a1, a2, a3, near)

way-le : (n i : ℕ) (e : BucketElement) → i < n → way n i e ≤ n
unfolding way
way-le n i e lt = elim (Bool-cases (is_used e)) [
  | inr f ↦ rw f (omega arith)
  | inl u ↦
      let (h, q, r) = hash_of_used e u in
      let home : home_of n e < n = rw q (grind arith) in
      let d = dist-lt n (home_of n e) i home lt in rw u (omega arith)
]

-- Every element is less than n positions from its home.
pub ways-le : (n : ℕ) (table : List BucketElement) → length table ≡ n → ways n table ≤ n * n
unfolding ways way
ways-le n table len =
    let each = λ (i : ℕ) (e : BucketElement) (lt : i < 0 + length table).
      way-le n i e (omega (arith, lt, len)) in
    let s = sum_at-le (way n) n 0 table each in
    rw (sym len) (subst (λ (m : ℕ). sum_at (way m) 0 table ≤ length table * m) (sym len) s)
