-- ===== src/Session.antt =====
-- What a matcher or a policy works on: the triplet and the `Extra` of the request, which it gets by
-- reference, and the world behind the data sources and the clock.
use greylist.Base.{ok, Result}
use greylist.Base.State.{Run}
use greylist.Core.{Extra}
use greylist.Triplet.{Triplet}

pub record Session (W : Type 0) : Type 0 where
  pub triplet : Triplet
  pub extra : Extra
  pub world : W

module _ {W A : Type 0} where
  -- A call of the triplet that may throw.
  abbrev pub on_triplet : (Triplet → Result A × Triplet) → Run (Session W) A
  on_triplet get s = ((get s.triplet).0, record s { triplet = (get s.triplet).1 })

  -- A getter of the triplet.
  abbrev pub gets : (Triplet → A × Triplet) → Run (Session W) A
  gets get s = (ok (get s.triplet).0, record s { triplet = (get s.triplet).1 })

  -- A call of a data source, or of the clock.
  abbrev pub on_world : (W → Result A × W) → Run (Session W) A
  on_world call s = ((call s.world).0, record s { world = (call s.world).1 })

  abbrev pub reads : (W → A × W) → Run (Session W) A
  reads call s = (ok (call s.world).0, record s { world = (call s.world).1 })

abbrev pub on_extra : {W : Type 0} → (Extra → Extra) → Run (Session W) (Unit {0})
on_extra change s = (ok tt, record s { extra = change s.extra })
