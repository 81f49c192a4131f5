-- ===== src/Stream/Queue.antt =====
-- internal/stream/hub.go: one subscription, what it queues and what its reader gets.
use go_tangra_asset.Common.{
  ℕ, String, ◌≡◌, ◌≢◌, ◌⊎◌, Bool, true, false, not, ◌&&◌, ◌||◌, List, [], ◌∷◌, ◌++◌, ltb, ◌==◌,
  if◌then◌else◌,
}
use go_tangra_asset.Memstore.Page.{length}
use go_tangra_asset.Stream.{less}

pub record Event : Type 0 where
  pub id : String
  pub type : String
  pub data_ : String

-- The channel is its queued events, oldest first; it holds at most `conn_buffer`.
pub record Subscription : Type 0 where
  pub tenant : String
  pub user : String
  pub ch : List Event
  pub last : String
  pub closed : Bool

abbrev pub conn_buffer : ℕ
conn_buffer = 32

-- `&Subscription{...}`
abbrev pub opened : String → String → Subscription
opened tenant user = record { tenant = tenant; user = user; ch = []; last = ""; closed = false }

-- Whether `push` leaves the event out: the subscription is closed, or it had the event already.
abbrev pub is_done : Subscription → Event → Bool
is_done s ev = s.closed || (not (ev.id == "") && not (s.last == "") && not (less s.last ev.id))

abbrev pub noted : Subscription → Event → Subscription
noted s ev = if not (ev.id == "") then record s { last = ev.id } else s

unfoldable pub push : Event → Subscription → Bool × Subscription
push ev s =
    if is_done s ev
    then (true, s)
    else if ltb (length s.ch) conn_buffer
    then (true, record (noted s ev) { ch = s.ch ++ (ev ∷ []) })
    else (false, noted s ev)

-- The end of `Close`; a closed channel still gives what it holds.
abbrev pub shut : Subscription → Subscription
shut s = record s { closed = true }

-- What happens to one subscription: events come, its reader takes one, it is closed.
pub data Happening : Type 0 where
  comes : Event → Happening
  taken closes : Happening

abbrev pub taken_from : Subscription → List Event → List Event × Subscription
taken_from s [] = ([], s)
taken_from s (e ∷ es) = (e ∷ [], record s { ch = es })

-- What the reader gets of a happening, and the subscription after it.
unfoldable pub happen : Happening → Subscription → List Event × Subscription
unfolding push
happen (comes ev) s = ([], (push ev s).1)
happen taken s = taken_from s s.ch
happen closes s = ([], shut s)

-- What the reader gets of a run.
unfoldable pub happen_all : List Happening → Subscription → List Event × Subscription
unfolding happen
happen_all [] s = ([], s)
happen_all (h ∷ hs) s =
    let (got, s') = happen h s in let (more, s'') = happen_all hs s' in (got ++ more, s'')

-- From the id `lo` (none if empty) the ids of the events rise, up to at most `hi`; events without an id
-- stand anywhere.
abbrev pub IsRising : String → List Event → String → Type 0
IsRising lo [] hi = (lo ≡ hi) ⊎ ((hi ≢ "") × ((lo ≡ "") ⊎ (less lo hi ≡ true)))
IsRising lo (e ∷ es) hi =
    ((e.id ≡ "") × IsRising lo es hi)
    ⊎ ((e.id ≢ "") × ((lo ≡ "") ⊎ (less lo e.id ≡ true)) × IsRising e.id es hi)
