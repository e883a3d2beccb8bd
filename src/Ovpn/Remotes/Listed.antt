-- ===== src/Ovpn/Remotes/Listed.antt =====
-- The servers of internal/ovpn/config.go's collectRemotes, against the directives of the profile.
use wireguide.Base.{
  Bool, true, false, ◌||◌, List, [], ◌∷◌, ◌++◌, if◌then◌else◌, map, All, All-append, All-map, ◌≡◌,
  refl, arith,
}
use wireguide.Base.Bytes.{Bytes, contains, equal_refl}
use wireguide.Ovpn.Source.{Directive, TopDirective}
use wireguide.Ovpn.Remotes.{
  RemoteSpec, RemoteDefaults, trim_brackets, add_remote, add_args, is_remote, remotes_in,
  remotes_below, apply_all, collect_remotes, walk,
}

abbrev hosts : List RemoteSpec → List Bytes
hosts rs = map (λ (r : RemoteSpec). r.host) rs

-- The server that a plain "remote HOST …" names.
abbrev pub names : Bool → List Bytes → List Bytes
names false ((c ∷ h) ∷ _) = trim_brackets (c ∷ h) ∷ []
names _ _ = []

abbrev pub IsListed : List RemoteSpec → Directive → Type 0
IsListed rs d =
    is_remote d ≡ true
    → All (λ h. contains (map (λ (r : RemoteSpec). r.host) rs) h ≡ true) (names d.inline d.args)

abbrev Holds : List RemoteSpec → Bytes → Type 0
Holds rs h = contains (hosts rs) h ≡ true

hosts-append :
    (xs ys : List RemoteSpec) (h : Bytes)
    → contains (hosts (xs ++ ys)) h ≡ (contains (hosts xs) h || contains (hosts ys) h)
unfolding contains
hosts-append [] ys h = refl
hosts-append (x ∷ xs) ys h = ground (arith, hosts-append xs ys h)

IsListed-left : (xs ys : List RemoteSpec) (d : Directive) → IsListed xs d → IsListed (xs ++ ys) d
IsListed-left xs ys d h r =
    All-map (Holds xs) (Holds (xs ++ ys)) (λ x held. ground (arith, hosts-append xs ys x))
      (names d.inline d.args) (h r)

IsListed-right : (xs ys : List RemoteSpec) (d : Directive) → IsListed ys d → IsListed (xs ++ ys) d
IsListed-right xs ys d h r =
    All-map (Holds ys) (Holds (xs ++ ys)) (λ x held. ground (arith, hosts-append xs ys x))
      (names d.inline d.args) (h r)

add_args-Holds :
    (inline : Bool) (args : List Bytes) (def : RemoteDefaults)
    → All (Holds (add_args inline args def)) (names inline args)
unfolding contains
add_args-Holds false ((c ∷ h) ∷ more) def = (rw (equal_refl (trim_brackets (c ∷ h))) refl, tt)
add_args-Holds false [] def = tt
add_args-Holds false ([] ∷ more) def = tt
add_args-Holds true args def = tt

add_remote-IsListed :
    (d : Directive) (def : RemoteDefaults)
    → IsListed (if is_remote d then add_remote d def else []) d
unfolding add_remote
add_remote-IsListed d def r = rw r (add_args-Holds d.inline d.args def)

remotes_in-IsListed :
    (def : RemoteDefaults) (ds : List Directive) → All (IsListed (remotes_in def ds)) ds
unfolding remotes_in
remotes_in-IsListed def [] = tt
remotes_in-IsListed def (d ∷ ds) =
    let here = if is_remote d then add_remote d def else [] in
    let rest = remotes_in def ds in
    (
      IsListed-left here rest d (add_remote-IsListed d def),
      All-map (IsListed rest) (IsListed (here ++ rest)) (λ e h. IsListed-right here rest e h) ds
          (remotes_in-IsListed def ds),
    )

remotes_below-IsListed :
    (global : RemoteDefaults) (ts : List TopDirective)
    → All (IsListed (remotes_below global ts)) (walk ts)
unfolding remotes_below walk
remotes_below-IsListed global [] = tt
remotes_below-IsListed global (t ∷ ts) =
    let here = if is_remote t.directive then add_remote t.directive global else [] in
    let inner = remotes_in (apply_all global t.children) t.children in
    let rest = remotes_below global ts in
    (
      IsListed-left here (inner ++ rest) t.directive (add_remote-IsListed t.directive global),
      All-append (IsListed (here ++ (inner ++ rest))) t.children (walk ts)
          (All-map (IsListed inner) (IsListed (here ++ (inner ++ rest)))
            (λ e h. IsListed-right here (inner ++ rest) e (IsListed-left inner rest e h)) t.children
            (remotes_in-IsListed (apply_all global t.children) t.children))
          (All-map (IsListed rest) (IsListed (here ++ (inner ++ rest)))
            (λ e h. IsListed-right here (inner ++ rest) e (IsListed-right inner rest e h)) (walk ts)
            (remotes_below-IsListed global ts)),
    )

-- The host of every plain "remote" directive, at the top level or in a <connection> block, is among
-- the servers that collectRemotes lists.
pub collect_remotes-IsListed :
    (ds : List TopDirective) → All (IsListed (collect_remotes ds)) (walk ds)
unfolding collect_remotes
collect_remotes-IsListed ds = remotes_below-IsListed _ ds
