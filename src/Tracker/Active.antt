-- ===== src/Tracker/Active.antt =====
-- tunnelstate/conntracker.go: the active connections after a history of events.
use shitflared.Prelude.{
  ℕ, suc, ◌≡◌, refl, sym, ◌∙◌, ap, Bool, true, false, List, [], ◌∷◌, Option, none, some, arith,
  if◌then◌else◌, lookup, insert, nat_eq, lookup-insert, length, ◌==◌, Bool-cases, inl, inr,
}
use shitflared.Prelude.Keys.{Distinct, Distinct-insert}
use shitflared.Supervisor.Protocol.{http2}
use shitflared.Tracker.{
  Status, disconnected, connected, reconnecting, set_url, registering_tunnel, unregistering, Event,
  ConnectionInfo, ConnTracker, or_zero_info, new_conn_tracker, not_connected, on_status,
  on_tunnel_event, count_active_conns, has_connected_with, get_active_connections,
}

unfoldable pub track : ConnTracker → List Event → ConnTracker
track ct [] = ct
track ct (e ∷ es) = track (on_tunnel_event ct e) es

-- What a status says of a connection that was connected, or not, before.
abbrev pub says : Status → Bool → Bool
says connected before = true
says set_url before = before
says _ before = false

-- Whether the last event of the index that says something says that it is connected.
unfoldable pub last_says : ℕ → Bool → List Event → Bool
last_says index before [] = before
last_says index before (e ∷ es) =
    last_says index (if e.index == index then says e.event_type before else before) es

unfoldable pub is_active : ConnTracker → ℕ → Bool
is_active ct index = (or_zero_info (lookup index ct)).is_connected

abbrev dropped : ConnTracker → ℕ → ConnectionInfo
dropped ct index = record (or_zero_info (lookup index ct)) { is_connected = false }

insert-active :
    (ct : ConnTracker) (k index : ℕ) (ci : ConnectionInfo)
    → is_active (insert k ci ct) index
      ≡ (if k == index then ci.is_connected else is_active ct index)
unfolding is_active
insert-active ct k index ci =
    ap (λ o. (or_zero_info o).is_connected) (lookup-insert k index ci ct) ∙ chosen (k == index)
  where
    chosen :
        (b : Bool)
        → (or_zero_info (if b then some ci else lookup index ct)).is_connected
          ≡ (if b then ci.is_connected else (or_zero_info (lookup index ct)).is_connected)
    chosen true = refl
    chosen false = refl

same_branches : (b c : Bool) → c ≡ (if b then c else c)
same_branches true c = refl
same_branches false c = refl

on_status-active :
    (ct : ConnTracker) (e : Event) (s : Status) (index : ℕ)
    → is_active (on_status ct e s) index
      ≡ (if e.index == index then says s (is_active ct index) else is_active ct index)
unfolding on_status not_connected
on_status-active ct e connected index =
    insert-active ct e.index index
      (record { is_connected = true; protocol = e.protocol; edge_address = e.edge_address })
on_status-active ct e set_url index = same_branches (e.index == index) (is_active ct index)
on_status-active ct e disconnected index = insert-active ct e.index index (dropped ct e.index)
on_status-active ct e reconnecting index = insert-active ct e.index index (dropped ct e.index)
on_status-active ct e registering_tunnel index = insert-active ct e.index index (dropped ct e.index)
on_status-active ct e unregistering index = insert-active ct e.index index (dropped ct e.index)

track-active :
    (es : List Event) (ct : ConnTracker) (index : ℕ)
    → is_active (track ct es) index ≡ last_says index (is_active ct index) es
unfolding track last_says on_tunnel_event
track-active [] ct index = refl
track-active (e ∷ es) ct index =
    track-active es (on_tunnel_event ct e) index
    ∙ ap (λ b. last_says index b es) (on_status-active ct e e.event_type index)

Distinct-on_status :
    (ct : ConnTracker) (e : Event) (s : Status) → Distinct ct → Distinct (on_status ct e s)
unfolding on_status not_connected
Distinct-on_status ct e connected d =
    Distinct-insert e.index
      (record { is_connected = true; protocol = e.protocol; edge_address = e.edge_address }) ct d
Distinct-on_status ct e set_url d = d
Distinct-on_status ct e disconnected d = Distinct-insert e.index (dropped ct e.index) ct d
Distinct-on_status ct e reconnecting d = Distinct-insert e.index (dropped ct e.index) ct d
Distinct-on_status ct e registering_tunnel d = Distinct-insert e.index (dropped ct e.index) ct d
Distinct-on_status ct e unregistering d = Distinct-insert e.index (dropped ct e.index) ct d

Distinct-track : (es : List Event) (ct : ConnTracker) → Distinct ct → Distinct (track ct es)
unfolding track on_tunnel_event
Distinct-track [] ct d = d
Distinct-track (e ∷ es) ct d =
    Distinct-track es (on_tunnel_event ct e) (Distinct-on_status ct e e.event_type d)

abbrev pub present : Option ConnectionInfo → Bool
present none = false
present (some ci) = true

abbrev pub is_listed : ConnTracker → ℕ → Bool
is_listed list index = present (lookup index list)

active-cons :
    (j index : ℕ) (ci : ConnectionInfo) (ct : ConnTracker)
    → is_active ((j, ci) ∷ ct) index ≡ (if j == index then ci.is_connected else is_active ct index)
unfolding is_active lookup
active-cons j index ci ct = chosen (j == index)
  where
    chosen :
        (b : Bool)
        → (or_zero_info (if b then some ci else lookup index ct)).is_connected
          ≡ (if b then ci.is_connected else (or_zero_info (lookup index ct)).is_connected)
    chosen true = refl
    chosen false = refl

inactive-unknown :
    (ct : ConnTracker) (index : ℕ) → lookup index ct ≡ none → is_active ct index ≡ false
unfolding is_active
inactive-unknown ct index h = ap (λ o. (or_zero_info o).is_connected) h

listed-cons :
    (j index : ℕ) (ci : ConnectionInfo) (list : ConnTracker)
    → is_listed ((j, ci) ∷ list) index ≡ (if j == index then true else is_listed list index)
unfolding lookup
listed-cons j index ci list = chosen (j == index)
  where
    chosen :
        (b : Bool)
        → present (if b then some ci else lookup index list)
          ≡ (if b then true else present (lookup index list))
    chosen true = refl
    chosen false = refl

lookup-nothing : (index : ℕ) → lookup {V = ConnectionInfo} index [] ≡ none
unfolding lookup
lookup-nothing index = refl

listed-active :
    (ct : ConnTracker) (index : ℕ)
    → Distinct ct
    → is_listed (get_active_connections ct) index ≡ is_active ct index
unfolding get_active_connections
listed-active [] index d =
    ap present (lookup-nothing index) ∙ sym (inactive-unknown [] index (lookup-nothing index))
listed-active ((j, ci) ∷ ct) index d =
    filtered (listed-active ct index d.1) ci.is_connected (j == index) refl
    ∙ sym (active-cons j index ci ct)
  where
    rest : ConnTracker
    rest = get_active_connections ct

    unknown : is_listed rest index ≡ is_active ct index → j ≡ index → is_listed rest index ≡ false
    unknown h e = h ∙ inactive-unknown ct index (ap (λ i. lookup i ct) (sym e) ∙ d.0)

    filtered :
        is_listed rest index ≡ is_active ct index
        → (b same : Bool) → same ≡ (j == index)
        → is_listed (if b then (j, ci) ∷ rest else rest) index
          ≡ (if same then b else is_active ct index)
    filtered h true true e = listed-cons j index ci rest ∙ rw (sym e) refl
    filtered h true false e = listed-cons j index ci rest ∙ rw (sym e) h
    filtered h false true e = unknown h (ground (arith, e))
    filtered h false false e = h

count-length : (ct : ConnTracker) → count_active_conns ct ≡ length (get_active_connections ct)
unfolding count_active_conns get_active_connections
count-length [] = refl
count-length ((j, ci) ∷ ct) = elim (Bool-cases ci.is_connected) [
  | inl yes_it_is ↦ rw yes_it_is (ap suc (count-length ct))
  | inr no_it_is_not ↦ rw no_it_is_not (count-length ct)
]

-- After any events a connection is in the list of active ones if and only if the last event of its
-- index, other than a set URL, is that it connected; and the count is the length of the list.
pub track-new_conn_tracker_active :
    (es : List Event) (index : ℕ)
    → (is_listed (get_active_connections (track new_conn_tracker es)) index
        ≡ last_says index false es)
      × (count_active_conns (track new_conn_tracker es)
          ≡ length (get_active_connections (track new_conn_tracker es)))
unfolding new_conn_tracker is_active lookup
track-new_conn_tracker_active es index = (
  listed-active (track new_conn_tracker es) index (Distinct-track es [] tt)
      ∙ track-active es [] index,
  count-length (track new_conn_tracker es),
)

has_connected_with-insert :
    (ct : ConnTracker) (k : ℕ) (ci : ConnectionInfo)
    → ci.protocol ≡ http2
    → has_connected_with (insert k ci ct) http2 ≡ true
unfolding has_connected_with insert
has_connected_with-insert [] k ci h = rw h refl
has_connected_with-insert ((j, w) ∷ ct) k ci h = elim (Bool-cases (j == k)) [
  | inl same ↦ rw same (rw h refl)
  | inr other ↦ rw other (ground (arith, has_connected_with-insert ct k ci h))
]

not_connected-http2 :
    (ct : ConnTracker) (index : ℕ)
    → lookup index ct ≡ none
    → has_connected_with (not_connected ct index) http2 ≡ true
unfolding not_connected
not_connected-http2 ct index fresh =
    has_connected_with-insert ct index (dropped ct index)
      (ap (λ o. (or_zero_info o).protocol) fresh)

-- An event that says that an unknown connection is not connected is enough for the tracker to answer
-- that a connection was made with HTTP2.
pub has_connected_with_unconnected :
    (ct : ConnTracker) (e : Event)
    → lookup e.index ct ≡ none
    → says e.event_type true ≡ false
    → has_connected_with (on_tunnel_event ct e) http2 ≡ true
unfolding on_tunnel_event on_status
has_connected_with_unconnected ct e fresh h = unconnected e.event_type h
  where
    unconnected :
        (s : Status) → says s true ≡ false → has_connected_with (on_status ct e s) http2 ≡ true
    unconnected connected h = absurd cc
    unconnected set_url h = absurd cc
    unconnected disconnected h = not_connected-http2 ct e.index fresh
    unconnected reconnecting h = not_connected-http2 ct e.index fresh
    unconnected registering_tunnel h = not_connected-http2 ct e.index fresh
    unconnected unregistering h = not_connected-http2 ct e.index fresh
