-- ===== src/Helper/Handlers/Laws.antt =====
-- What the handlers leave behind.
use wireguide.Base.{false, not, ◌&&◌, ◌||◌, List, [], ◌∷◌, ◌++◌, if◌then◌else◌, ◌≡◌, arith}
use wireguide.Base.Bytes.{Bytes, equal, equal_iff, contains, contains-append}
use wireguide.Base.Dict.{has, keys, get-remove, contains-keys}
use wireguide.Base.Sorted.{contains-sort_strings}
use wireguide.Helper.State.{Helper, is_held}
use wireguide.Helper.Holds.FailClosed.{is_protected}
use wireguide.Helper.Handlers.{clear_tunnel, add_names, protected_tunnels}

-- A disconnect ends every protection of its tunnel, and no other tunnel's.
pub clear_tunnel-protected :
    (h : Helper) (n k : Bytes)
    → is_protected (clear_tunnel n h) k ≡ (if equal n k then false else is_protected h k)
unfolding clear_tunnel is_held has
clear_tunnel-protected h n k =
    ground (arith, get-remove h.held n k, get-remove h.pending n k, get-remove h.blocked n k)

contains-add_names :
    (running out ns : List Bytes) (n : Bytes)
    → contains (add_names running out ns) n
      ≡ (contains out n || (not (contains running n) && contains ns n))
unfolding add_names contains
contains-add_names running out [] n = ground arith
contains-add_names running out (x ∷ ns) n = ground (
  arith,
  equal_iff x n,
  contains-append out (x ∷ []) n,
  contains-add_names running out ns n,
  contains-add_names running (out ++ x ∷ []) ns n,
)

-- The GUI is told of exactly the tunnels that do not run and have a hold, pending or counted, or a
-- block.
pub protected_tunnels_lem :
    (running : List Bytes) (h : Helper) (n : Bytes)
    → contains (protected_tunnels running h) n
      ≡ (not (contains running n) && (has h.held n || has h.pending n || has h.blocked n))
unfolding protected_tunnels contains
protected_tunnels_lem running h n =
    let names = keys h.held ++ (keys h.pending ++ keys h.blocked) in
    ground (
      arith,
      contains-sort_strings n (add_names running [] names),
      contains-add_names running [] names n,
      contains-append (keys h.held) (keys h.pending ++ keys h.blocked) n,
      contains-append (keys h.pending) (keys h.blocked) n,
      contains-keys h.held n,
      contains-keys h.pending n,
      contains-keys h.blocked n,
    )
