-- ===== src/Tunnel/Manager/Queries/Laws.antt =====
-- What the queries of the manager report.
use wireguide.Base.{
  Bool, true, ◌&&◌, List, [], ◌∷◌, Option, some, ◌≡◌, refl, arith, Bool-cases, Option-cases, inl,
  inr,
}
use wireguide.Base.Bytes.{Bytes, equal_iff, contains}
use wireguide.Base.Dict.{Dict, get, has, keys, contains-keys}
use wireguide.Base.Sorted.{sort_strings, contains-sort_strings}
use wireguide.Tunnel.Types.{State, connected, Entry, Manager}
use wireguide.Tunnel.Manager.Queries.{
  active_entry, names_where, active_tunnels, first_where, primary, want_connected,
}

contains-names_where :
    (p : Option Entry → Bool) (d : Dict Entry) (ns : List Bytes) (n : Bytes)
    → contains (names_where p d ns) n ≡ (contains ns n && p (get d n))
unfolding contains names_where
contains-names_where p d [] n = refl
contains-names_where p d (k ∷ ns) n = ground (arith, equal_iff k n, contains-names_where p d ns n)

-- ActiveTunnels lists a name exactly if its entry is connected, connecting or disconnecting.
pub active_tunnels_lem :
    (m : Manager) (n : Bytes) → contains (active_tunnels m) n ≡ active_entry (get m.tunnels n)
unfolding active_tunnels has
active_tunnels_lem m n = ground (
  arith,
  contains-names_where active_entry m.tunnels (sort_strings (keys m.tunnels)) n,
  contains-sort_strings n (keys m.tunnels),
  contains-keys m.tunnels n,
)

first_where-found :
    (want : State → Bool) (d : Dict Entry) (ns : List Bytes) (n : Bytes) (e : Entry)
    → get d n ≡ some e
    → want e.state ≡ true
    → contains ns n ≡ true
    → (x : Entry) × (first_where want d ns ≡ some x) × (want x.state ≡ true)
unfolding first_where contains
first_where-found want d [] n e found w h = cc
first_where-found want d (k ∷ ns) n e found w h = elim (Option-cases (get d k)) [
  | inl gone ↦
      let (x, first, wanted) =
        first_where-found want d ns n e found w (ground (arith, equal_iff k n)) in
      (x, ground arith, wanted)
  | inr (y, here) ↦ elim (Bool-cases (want y.state)) [
    | inl yes_y ↦ (y, ground arith, yes_y)
    | inr no_y ↦
        let (x, first, wanted) =
          first_where-found want d ns n e found w (ground (arith, equal_iff k n)) in
        (x, ground arith, wanted)
  ]
]

-- Where some tunnel is connected, the tunnel that Status reports is a connected one.
pub primary-connected :
    (m : Manager) (n : Bytes) (e : Entry)
    → get m.tunnels n ≡ some e
    → e.state ≡ connected
    → (x : Entry) × (primary m.tunnels ≡ some x) × (x.state ≡ connected)
unfolding primary has
primary-connected m n e found up =
    let listed : contains (sort_strings (keys m.tunnels)) n ≡ true =
      ground (arith, contains-sort_strings n (keys m.tunnels), contains-keys m.tunnels n) in
    let (x, first, wanted) =
      first_where-found want_connected m.tunnels (sort_strings (keys m.tunnels)) n e found
        (ground arith) listed in
    (x, ground arith, ground arith)
