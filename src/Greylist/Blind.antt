-- ===== src/Greylist/Blind.antt =====
-- The queries of src/greylist.h are built without a look at the table.
use greylist.Greylist.{
  row_calls, get_short_client_name, reverse, weak, normal, init, first_calls, default_length,
  Greylist, ModeType, insert_calls, find_calls, get_client_address_numeric_idx, effective_mode,
  mode_calls, Call, Triplet, address_calls,
}
use greylist.Base.{◌/◌, ◌+◌, List, ℕ, zero, suc, ◌≡◌, refl, ok, err, ap, ◌∙◌, Result}
use greylist.IpAddress.{Env}
use greylist.Base.State.{Run, ◌>>=◌, pure}
use greylist.Session.{Session, on_triplet, gets}

module _ {W : Type 0} where
  abbrev pub at_world : W → Session W → Session W
  at_world w s = record s { world = w }

  -- The call does the same in every world, and leaves the world as it is.
  pub record IsBlind {A : Type 0} (m : Run (Session W) A) : Type 0 where
    pub at : (w : W) (s : Session W) → m (at_world w s) ≡ ((m s).0, at_world w (m s).1)

  then_blind :
      {A B : Type 0} {f : A → Run (Session W) B} (w : W) (r : Result A × Session W)
      → ((a : A) → IsBlind (f a))
      → ((λ s. (r.0, at_world w r.1)) >>= f) r.1
        ≡ ((((λ s. r) >>= f) r.1).0, at_world w (((λ s. r) >>= f) r.1).1)
  then_blind w (ok a, s) h = (h a).at w s
  then_blind w (err e, s) h = refl

  on_triplet-IsBlind :
      {A B : Type 0} (get : Triplet → Result A × Triplet) (f : A → Run (Session W) B)
      → ((a : A) → IsBlind (f a))
      → IsBlind (on_triplet get >>= f)
  on_triplet-IsBlind get f h = record { at = λ w s. then_blind w (on_triplet get s) h }

  gets-IsBlind :
      {A B : Type 0} (get : Triplet → A × Triplet) (f : A → Run (Session W) B)
      → ((a : A) → IsBlind (f a))
      → IsBlind (gets get >>= f)
  gets-IsBlind get f h = record { at = λ w s. then_blind w (gets get s) h }

  pure-IsBlind : {A : Type 0} (a : A) → IsBlind (pure a)
  pure-IsBlind a = record { at = λ w s. refl }

  module _ (env : Env) where
    address_calls-IsBlind :
        (rounds i j : ℕ) (calls : List Call) → IsBlind (address_calls env rounds i j calls)
    unfolding address_calls
    address_calls-IsBlind zero i j calls = record { at = λ w s. refl }
    address_calls-IsBlind (suc rounds) i j calls =
        on_triplet-IsBlind (get_client_address_numeric_idx env i) _
          (λ v. address_calls-IsBlind rounds (i + 1) (j / 2) _)

    effective_mode-IsBlind : (m : ModeType) → IsBlind (effective_mode {W = W} env m)
    unfolding effective_mode
    effective_mode-IsBlind reverse = record { at = λ w s. refl }
    effective_mode-IsBlind m = record { at = λ w s. refl }

    mode_calls-IsBlind :
        (weakbytes : ℕ) (m : ModeType) (calls : List Call)
        → IsBlind (mode_calls {W = W} env weakbytes m calls)
    unfolding mode_calls
    mode_calls-IsBlind weakbytes reverse calls = record { at = λ w s. refl }
    mode_calls-IsBlind weakbytes weak calls = address_calls-IsBlind weakbytes 0 64 calls
    mode_calls-IsBlind weakbytes normal calls = address_calls-IsBlind default_length 0 64 calls
    mode_calls-IsBlind weakbytes init calls = record { at = λ w s. refl }

    pub find_calls-IsBlind : (g : Greylist W) → IsBlind (find_calls env g)
    unfolding find_calls
    find_calls-IsBlind g = record {
      at = λ w s.
          ap (λ r. ((λ t. r) >>= (λ mode. mode_calls env g.weakbytes mode (first_calls env s))) r.1)
            ((effective_mode-IsBlind g.mode).at w s)
          ∙ then_blind w (effective_mode env g.mode s)
              (λ mode. mode_calls-IsBlind g.weakbytes mode (first_calls env s));
    }

    pub insert_calls-IsBlind : (now : ℕ) → IsBlind (insert_calls {W = W} env now)
    unfolding insert_calls
    insert_calls-IsBlind now = record {
      at = λ w s.
          (gets-IsBlind get_short_client_name _ (λ name.
              on_triplet-IsBlind (get_client_address_numeric_idx env 0) _ (λ ip64.
                on_triplet-IsBlind (get_client_address_numeric_idx env 1) _ (λ ip32.
                  on_triplet-IsBlind (get_client_address_numeric_idx env 2) _ (λ ip16.
                    on_triplet-IsBlind (get_client_address_numeric_idx env 3) _ (λ ip8.
                      (pure-IsBlind (
                        row_calls name s.triplet.sender s.triplet.recipient ip64 ip32 ip16 ip8
                          now)))))))).at
            w s;
    }
