-- ===== src/Greylist/Decide.antt =====
-- What `decide` answers, on a triplet that is new, waits, or has waited.
use greylist.Base.{
  ap, ◌∙◌, ◌%◌, ◌^◌, ℕ, ◌≤◌, ◌<◌, ◌+◌, ◌-◌, ◌≡◌, ◌⊎◌, arith, List, [], ◌∷◌, Option, none, some,
  codes, ok, err,
}
use greylist.Greylist.{
  after_find, Greylist, Found, find_triplet, insert_triplet, increment_triplet, settle, decide,
}
use greylist.Core.{dunno, defer, set_prefix, set_status}
use greylist.DataSource.{Call, add_increment, add_set, where_number}
use greylist.IpAddress.{Env}
use greylist.Session.{Session}

-- The change that a triplet gets when it passes.
abbrev pub passing_update : ℕ → ℕ → List Call
passing_update id now =
    add_increment (codes "count") 1
    ∷ add_set (codes "uts") (now % 2 ^ 32)
    ∷ where_number (codes "id") id (codes "=")
    ∷ []

module _ {W : Type 0} (env : Env) (clock : W → ℕ × W) (g : Greylist W) where
  -- `decide` goes on from what `findTriplet` found.
  decide-found :
      (s s' : Session W) (t : Option Found)
      → find_triplet env g s ≡ (ok t, s')
      → decide env clock g s ≡ after_find env clock g t s'
  unfolding decide
  decide-found s s' t f =
      ap (λ r. elim r.0 [ ok x ↦ after_find env clock g x r.1 | err e ↦ (err e, r.1) ]) f

  settled :
      (s' : Session W) (t : Found) (now : ℕ) (w : W)
      → clock s'.world ≡ (now, w)
      → after_find env clock g (some t) s' ≡ settle g t now (record s' { world = w })
  unfolding after_find settle
  settled s' t now w c = ap (λ r. settle g t r.0 (record s' { world = r.1 })) c

  settle_passes :
      (s : Session W) (t : Found) (now : ℕ) (w' : W)
      → (0 < t.count) ⊎ (t.uts + g.timeout < now)
      → g.ds.update (passing_update t.id now) s.world ≡ (ok tt, w')
      → settle g t now s ≡ (
        ok dunno,
        record s { extra = set_status (codes "ok") t.count (now - t.uts) s.extra; world = w' },
      )
  unfolding settle increment_triplet
  settle_passes s t now w' d u = ground arith

  settle_waits :
      (s : Session W) (t : Found) (now : ℕ)
      → t.count ≡ 0
      → now ≤ t.uts + g.timeout
      → settle g t now s
        ≡ (ok defer, record s { extra = set_status (codes "wait") 0 (now - t.uts) s.extra })
  unfolding settle increment_triplet
  settle_waits s t now z l = ground arith

  -- If the lookup finds a row whose count is positive, or whose time plus the timeout is less than
  -- the time read from the clock, and the update of this row does not throw, then `decide` returns
  -- `dunno` with the prefix `ok`, the row's count and the seconds since its time (0 for a time to
  -- come), and the world is as the update left it.
  pub decide_passes :
      (s s' : Session W) (t : Found) (now : ℕ) (w w' : W)
      → find_triplet env g s ≡ (ok (some t), s')
      → clock s'.world ≡ (now, w)
      → (0 < t.count) ⊎ (t.uts + g.timeout < now)
      → g.ds.update (passing_update t.id now) w ≡ (ok tt, w')
      → decide env clock g s ≡ (
        ok dunno,
        record s' { extra = set_status (codes "ok") t.count (now - t.uts) s'.extra; world = w' },
      )
  decide_passes s s' t now w w' f c d u =
      decide-found s s' (some t) f
      ∙ settled s' t now w c
      ∙ settle_passes (record s' { world = w }) t now w' d u

  -- If the lookup finds a row whose count is 0 and whose time plus the timeout is not less than
  -- the time read from the clock, then `decide` returns `defer` with the prefix `wait`, the count
  -- 0 and the seconds since its time, and changes no row.
  pub decide_waits :
      (s s' : Session W) (t : Found) (now : ℕ) (w : W)
      → find_triplet env g s ≡ (ok (some t), s')
      → clock s'.world ≡ (now, w)
      → t.count ≡ 0
      → now ≤ t.uts + g.timeout
      → decide env clock g s ≡ (
        ok defer,
        record s' { extra = set_status (codes "wait") 0 (now - t.uts) s'.extra; world = w },
      )
  decide_waits s s' t now w f c z l =
      decide-found s s' (some t) f
      ∙ settled s' t now w c
      ∙ settle_waits (record s' { world = w }) t now z l

  -- If the lookup finds no row and the insert does not throw, then `decide` returns `defer`, sets
  -- the prefix `new`, and changes nothing else after the insert.
  pub decide_new :
      (s s' s'' : Session W)
      → find_triplet env g s ≡ (ok none, s')
      → insert_triplet env clock g s' ≡ (ok tt, s'')
      → decide env clock g s ≡ (ok defer, record s'' { extra = set_prefix (codes "new") s''.extra })
  unfolding after_find insert_triplet
  decide_new s s' s'' f i =
      decide-found s s' none f
      ∙ ap
          (λ r. elim r.0 [
            | ok x ↦ (ok defer, record r.1 { extra = set_prefix (codes "new") r.1.extra })
            | err e ↦ (err e, r.1)
          ])
          i
