-- ===== src/Server/Listing.antt =====
-- cmd/cloudflared/main.go: the list of the running tunnels. The sort of the standard library leaves the
-- order of equal times open; this is one of its outcomes.
use shitflared.Prelude.{ℕ, ◌≡◌, refl, Bool, List, [], ◌∷◌, Option, none, some, lookup, nat_eq}
use shitflared.Prelude.Sort.{sort_by, SortedFrom, count, sort_by-SortedFrom, count-sort_by}
use shitflared.Server.{Handle, Response, list_reply, Server}

abbrev add_handle : Option Handle → List Handle → List Handle
add_handle none rest = rest
add_handle (some h) rest = h ∷ rest

unfoldable pub snapshots : List (ℕ × Handle) → List (ℕ × ℕ) → List Handle
snapshots heap [] = []
snapshots heap ((id, p) ∷ rest) = add_handle (lookup p heap) (snapshots heap rest)

unfoldable pub sort_by_start : List Handle → List Handle
sort_by_start list = sort_by (λ h. h.started_at) list

unfoldable pub list_tunnels : Server → Response
list_tunnels s = list_reply (sort_by_start (snapshots s.heap s.running))

abbrev pub by_start : Handle → ℕ
by_start h = h.started_at

-- The reply lists the handles of the running tunnels, each as often as it is there, in the order of
-- their start.
pub list_tunnels_lem :
    (s : Server)
    → (list : List Handle) × ((list_tunnels s ≡ list_reply list)
        × (SortedFrom by_start 0 list
            × ((test : Handle → Bool)
                → count by_start test list ≡ count by_start test (snapshots s.heap s.running))))
unfolding list_tunnels sort_by_start
list_tunnels_lem s = (
  sort_by_start (snapshots s.heap s.running),
  (
    refl,
    (
      sort_by-SortedFrom by_start (snapshots s.heap s.running),
      λ test. count-sort_by by_start test (snapshots s.heap s.running),
    ),
  ),
)
