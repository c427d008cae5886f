-- ===== src/Greylist/Table.antt =====
-- The policy over a table, by what the table holds for one triplet. The data source is a parameter:
-- what its lookup finds is a function of the query and the world.
use greylist.Base.{
  zero, suc, map, [], ◌∷◌, subst, equal, ◌⊎◌, ◌<◌, true, false, Result, ℕ, ◌+◌, ◌≤◌, ◌≡◌, ◌||◌, ltb,
  List, Option, none, some, ok, err, refl, ap, sym, ◌∙◌, All, Option-cases, Bool-cases, inl, inr,
  arith, ◌%◌, ◌^◌, Bytes, if◌then◌else◌,
}
use greylist.DataSource.{Call, Row, DataSource}
use greylist.Greylist.{
  Greylist, Found, found, decide, find_triplet, insert_triplet, find_calls, insert_calls, row_calls,
}
use greylist.Greylist.Blind.{at_world, find_calls-IsBlind, insert_calls-IsBlind}
use greylist.Greylist.Decide.{decide_new, decide_passes, decide_waits, passing_update}
use greylist.Greylist.Keys.{IsQuad, Satisfies, find_then_insert, row_values}
use greylist.Core.{ActionType, defer, dunno}
use greylist.Session.{Session}
use greylist.IpAddress.{Env}

-- The count and the time that are known of a triplet.
abbrev pub entry : Option Found → Option (ℕ × ℕ)
entry none = none
entry (some t) = some (t.count, t.uts)

-- Greylisting, without a table: the answer to an attempt at the time `now`, and what is known then. The
-- time of an attempt that passes is kept as an `unsigned`.
abbrev pub greylisted : ℕ → ℕ → Option (ℕ × ℕ) → ActionType × Option (ℕ × ℕ)
greylisted timeout now none = (defer, some (0, now))
greylisted timeout now (some (count, uts)) =
    if ltb 0 count || ltb (uts + timeout) now
    then (dunno, some (count + 1, now % 2 ^ 32))
    else (defer, some (count, uts))

-- The answers to attempts at these times.
abbrev pub greylisted_all : ℕ → List ℕ → Option (ℕ × ℕ) → List (Result ActionType)
greylisted_all timeout [] e = []
greylisted_all timeout (now ∷ times) e =
    ok (greylisted timeout now e).0 ∷ greylisted_all timeout times (greylisted timeout now e).1

-- What the policy relies on, for one query `k` and what `view` says that is in the table for it: no
-- call throws; the time is an `unsigned long`; a lookup finds what `view` says, and neither it nor the
-- clock changes that; if nothing is found, the row of a new triplet that satisfies the conditions of
-- the query is found from then on, with the count 0 and its time; the update of the row that is found
-- raises its count, which is below a limit, and sets its time, which is an `unsigned`.
pub record IsStore {W : Type 0} (ds : DataSource W) (clock : W → ℕ × W) (k : List Call)
    (view : W → Option Found) (limit : ℕ) : Type 0 where
  pub lookup_returns :
      (w : W) → (rows : List Row) × ((ds.lookup k w).0 ≡ ok rows) × (found rows ≡ view w)
  pub lookup_keeps : (w : W) → view (ds.lookup k w).1 ≡ view w
  pub clock_fits : (w : W) → (clock w).0 < 2 ^ 64
  pub clock_keeps : (w : W) → view (clock w).1 ≡ view w
  pub insert_returns : (row : List Call) (w : W) → (ds.insert row w).0 ≡ ok tt
  pub insert_stores :
      (w : W) (name sender recipient : Bytes) (ip64 ip32 ip16 ip8 now : ℕ)
      → now < 2 ^ 64
      → All (Satisfies (row_calls name sender recipient ip64 ip32 ip16 ip8 now)) k
      → view w ≡ none
      → entry (view (ds.insert (row_calls name sender recipient ip64 ip32 ip16 ip8 now) w).1)
        ≡ some (0, now)
  pub update_returns : (calls : List Call) (w : W) → (ds.update calls w).0 ≡ ok tt
  pub update_stores :
      (w : W) (t : Found) (now : ℕ)
      → t.count < limit
      → view w ≡ some t
      → entry (view (ds.update (passing_update t.id now) w).1) ≡ some (t.count + 1, now % 2 ^ 32)

-- The count that is known.
abbrev pub count_of : Option (ℕ × ℕ) → ℕ
count_of none = 0
count_of (some (count, uts)) = count

-- It grows by one at most.
count_of-greylisted :
    (timeout now : ℕ) (e : Option (ℕ × ℕ)) → count_of (greylisted timeout now e).1 ≤ count_of e + 1
count_of-greylisted timeout now none = omega arith
count_of-greylisted timeout now (some (count, uts)) =
    elim (Bool-cases (ltb 0 count || ltb (uts + timeout) now)) [
      | inl h ↦ rw h (omega arith)
      | inr h ↦ rw h (omega arith)
    ]

late_or_known :
    (count uts timeout now : ℕ)
    → (ltb 0 count || ltb (uts + timeout) now) ≡ true
    → (0 < count) ⊎ (uts + timeout < now)
late_or_known count uts timeout now h = elim (Bool-cases (ltb 0 count)) [
  | inl e ↦ inl (ground arith)
  | inr e ↦ inr (ground arith)
]

waiting_count :
    (count uts timeout now : ℕ)
    → (ltb 0 count || ltb (uts + timeout) now) ≡ false
    → (count ≡ 0) × (now ≤ uts + timeout)
waiting_count count uts timeout now h = elim (Bool-cases (ltb 0 count)) [
  | inl e ↦ absurd (cc h)
  | inr e ↦ (ground arith, ground arith)
]

module _ {W : Type 0} (env : Env) (clock : W → ℕ × W) (g : Greylist W) (k : List Call)
    (view : W → Option Found) (limit : ℕ) (store : IsStore g.ds clock k view limit) where
  found_at :
      (s s1 : Session W)
      → find_calls env g s ≡ (ok k, s1)
      → find_triplet env g s ≡ (ok (view s1.world), at_world (g.ds.lookup k s1.world).1 s1)
  unfolding find_triplet
  found_at s s1 e =
      let (rows, er, ef) = store.lookup_returns s1.world in
      ap
        (λ r. elim r.0 [
          | ok k ↦ elim (g.ds.lookup k r.1.world).0 [
            | ok rows ↦ (ok (found rows), at_world (g.ds.lookup k r.1.world).1 r.1)
            | err e ↦ (err e, at_world (g.ds.lookup k r.1.world).1 r.1)
          ]
          | err e ↦ (err e, r.1)
        ])
        e
      ∙ ap
          (λ r. elim r [
            | ok rows ↦ (ok (found rows), at_world (g.ds.lookup k s1.world).1 s1)
            | err e ↦ (err e, at_world (g.ds.lookup k s1.world).1 s1)
          ])
          er
      ∙ ap (λ t. (ok t, at_world (g.ds.lookup k s1.world).1 s1)) ef

  same_query :
      (k k' : List Call) (s s' : Session W)
      → ◌≡◌ {A = Result (List Call) × Session W} (ok k, s) (ok k', s')
      → k ≡ k'
  same_query k k' s s' e = cc

  inserted_at :
      (row : List Call) (s1 s2 : Session W) (w : W)
      → insert_calls env (clock w).0 s1 ≡ (ok row, s2)
      → insert_triplet env clock g (at_world w s1)
        ≡ (ok tt, at_world (g.ds.insert row (clock w).1).1 s2)
  unfolding insert_triplet
  inserted_at row s1 s2 w e =
      let w' = (clock w).1 in
      ap
        (λ r. elim r.0 [
          | ok row ↦ ((g.ds.insert row r.1.world).0, at_world (g.ds.insert row r.1.world).1 r.1)
          | err e ↦ (err e, r.1)
        ])
        ((insert_calls-IsBlind env (clock w).0).at w' s1 ∙ ap (λ r. (r.0, at_world w' r.1)) e)
      ∙ ap (λ r. (r, at_world (g.ds.insert row w').1 s2)) (store.insert_returns row w')

  -- The time that `decide` reads: behind the lookup.
  abbrev pub time_of : W → ℕ
  time_of w = (clock (g.ds.lookup k w).1).0

  -- What one decision does to the entry.
  Refines : W → Result ActionType × Session W → Type 0
  Refines w r =
      (o : ActionType) × (r.0 ≡ ok o)
      × ((o, entry (view r.1.world)) ≡ greylisted g.timeout (time_of w) (entry (view w)))

  decide-new_entry :
      (s s1 s2 : Session W) {name sender recipient : Bytes} {ip64 ip32 ip16 ip8 now : ℕ}
      → find_calls env g s ≡ (ok k, s1)
      → now ≡ time_of s1.world
      → insert_calls env now s1 ≡ (ok (row_calls name sender recipient ip64 ip32 ip16 ip8 now), s2)
      → All (Satisfies (row_calls name sender recipient ip64 ip32 ip16 ip8 now)) k
      → view s1.world ≡ none
      → Refines s1.world (decide env clock g s)
  unfolding Refines
  decide-new_entry s s1 s2 {name} {sender} {recipient} {ip64} {ip32} {ip16} {ip8} {now} e t i sat
        v =
      let w = (g.ds.lookup k s1.world).1 in
      let row = row_calls name sender recipient ip64 ip32 ip16 ip8 now in
      let d =
        decide_new env clock g s (at_world w s1) (at_world (g.ds.insert row (clock w).1).1 s2)
          (found_at s s1 e ∙ ap (λ t. (ok t, at_world w s1)) v)
          (inserted_at row s1 s2 w (ap (λ n. insert_calls env n s1) (sym t) ∙ i)) in
      let gone = store.clock_keeps w ∙ store.lookup_keeps s1.world ∙ v in
      (
        defer,
        ap (λ r. r.0) d,
        ap (λ r. (defer, entry (view r.1.world))) d
            ∙ ap (λ t. (defer, t))
                (store.insert_stores (clock w).1 name sender recipient ip64 ip32 ip16 ip8 now
                  (omega (arith, t, store.clock_fits w)) sat gone)
            ∙ ap (λ n. (defer, some (0, n))) t
            ∙ ap (λ t. greylisted g.timeout (time_of s1.world) (entry t)) (sym v),
      )

  decide-old_entry :
      (s s1 : Session W) (t : Found)
      → t.count < limit
      → find_calls env g s ≡ (ok k, s1)
      → view s1.world ≡ some t
      → Refines s1.world (decide env clock g s)
  unfolding Refines
  decide-old_entry s s1 t below e v =
      let w = (g.ds.lookup k s1.world).1 in
      let now = time_of s1.world in
      let f = found_at s s1 e ∙ ap (λ t. (ok t, at_world w s1)) v in
      let here = store.clock_keeps w ∙ store.lookup_keeps s1.world ∙ v in
      elim (Bool-cases (ltb 0 t.count || ltb (t.uts + g.timeout) now)) [
        | inl h ↦
            let d =
              decide_passes env clock g s (at_world w s1) t now (clock w).1
                (g.ds.update (passing_update t.id now) (clock w).1).1 f refl
                (late_or_known t.count t.uts g.timeout now h)
                (ap (λ r. (r, (g.ds.update (passing_update t.id now) (clock w).1).1))
                  (store.update_returns (passing_update t.id now) (clock w).1)) in
            (
              dunno,
              ap (λ r. r.0) d,
              ap (λ r. (dunno, entry (view r.1.world))) d
                  ∙ ap (λ x. (dunno, x)) (store.update_stores (clock w).1 t now below here)
                  ∙ rw (v, h) refl,
            )
        | inr h ↦
            let d =
              decide_waits env clock g s (at_world w s1) t now (clock w).1 f refl
                (waiting_count t.count t.uts g.timeout now h).0
                (waiting_count t.count t.uts g.timeout now h).1 in
            (
              defer,
              ap (λ r. r.0) d,
              ap (λ r. (defer, entry (view r.1.world))) d
                  ∙ ap (λ x. (defer, entry x)) here
                  ∙ rw (v, h) refl,
            )
      ]

  decide-entry :
      (a b c d : ℕ) (s s1 : Session W)
      → g.weakbytes ≤ 4
      → count_of (entry (view s1.world)) < limit
      → IsQuad a b c d s.triplet.client_address
      → find_calls env g s ≡ (ok k, s1)
      → Refines s1.world (decide env clock g s)
  unfolding equal
  decide-entry a b c d s s1 l below h e = elim (Option-cases (view s1.world)) [
    | inl v ↦
        let now = time_of s1.world in
        let (k', s1', s2, e', i, sat) = find_then_insert env g a b c d now s l h in
        let row = row_values env g a b c d now s in
        let ek = same_query k' k s1' s1 (sym e' ∙ e) in
        decide-new_entry s s1 s2 e refl (ap (insert_calls env now) (ap (λ r. r.1) (sym e ∙ e')) ∙ i)
          (subst (All (Satisfies row)) ek sat) v
    | inr (t, v) ↦
        decide-old_entry s s1 t (omega (arith, below, ap (λ t. count_of (entry t)) v)) e v
  ]

  module _ (s s1 : Session W) where
    -- Requests with the same triplet, one behind the other: the times and the answers.
    unfoldable pub attempts : ℕ → W → List (ℕ × Result ActionType)
    attempts zero w = []
    attempts (suc n) w =
        let r = decide env clock g (at_world w s) in (time_of w, r.0) ∷ attempts n r.1.world

    -- If `weakbytes` is at most 4, the address is four numbers that each fit in an `unsigned`, the
    -- lookup builds some query, the data source and the clock behave as `IsStore` says for this
    -- query, and the count that the table holds for it at first plus the number of requests is at
    -- most the limit there: then the answers to the requests with one triplet, one behind the
    -- other, are those of greylisting without a table, at the times that `decide` reads, from what
    -- the table holds for the query at first. There an attempt passes if the count is positive or
    -- the timeout is over since the time that is kept, and then raises the count and sets the
    -- time, cut to an `unsigned`; otherwise it waits, and the first one is kept with its time and
    -- the count 0.
    pub attempts-greylisted :
        (a b c d n : ℕ) (w : W)
        → g.weakbytes ≤ 4
        → count_of (entry (view w)) + n ≤ limit
        → IsQuad a b c d s.triplet.client_address
        → find_calls env g s ≡ (ok k, s1)
        → map (λ p. p.1) (attempts n w)
          ≡ greylisted_all g.timeout (map (λ p. p.0) (attempts n w)) (entry (view w))
    unfolding attempts Refines
    attempts-greylisted a b c d zero w l below h e = refl
    attempts-greylisted a b c d (suc n) w l below h e =
        let e' = (find_calls-IsBlind env g).at w s ∙ ap (λ r. (r.0, at_world w r.1)) e in
        let (o, eo, eq) =
          decide-entry a b c d (at_world w s) (at_world w s1) l (omega (arith, below)) h e' in
        let w' = (decide env clock g (at_world w s)).1.world in
        ap (λ r. r ∷ map (λ p. p.1) (attempts n w')) (eo ∙ ap (λ x. ok x.0) eq)
        ∙ ap (λ os. ok (greylisted g.timeout (time_of w) (entry (view w))).0 ∷ os)
            (attempts-greylisted a b c d n w' l
                (omega (
                  arith,
                  below,
                  count_of-greylisted g.timeout (time_of w) (entry (view w)),
                  ap (λ x. count_of x.1) eq,
                ))
                h e
              ∙ ap (greylisted_all g.timeout (map (λ p. p.0) (attempts n w'))) (ap (λ x. x.1) eq))
