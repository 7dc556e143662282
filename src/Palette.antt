-- ===== src/Palette.antt =====
-- The command palette of dashboard/src/components/layout/TopBar.tsx: its results, its keys and where it
-- goes. `normal` is `trim().toLowerCase()`, `lower` is `toLowerCase()`, `encode` is
-- `encodeURIComponent`.
pub mod Keys
use Prim.Native.Char.{code}
use Prim.Native.String.{String}
use sentinal.Base.{
  ℕ, suc, ◌+◌, ◌-◌, Bool, true, false, not, ◌&&◌, ◌||◌, Option, none, some, List, [], ◌∷◌, ◌++◌,
  ◌<>◌, ◌=?◌, ◌==◌, ◌or◌, leb, map, filter, take, length, get_elem?, truthy, includes, strip_prefix,
  if◌then◌else◌,
}
use sentinal.Base.Int.{ℤ, pos, negsuc, pos_part, neg_part, sub_ℕ, ◌+ℤ◌}
use sentinal.Event.{AnalyticsEvent}

pub record NavTarget : Type 0 where
  pub label : String
  pub href : String

pub data EntryKind : Type 0 where
  nav entity : EntryKind

pub record Entry : Type 0 where
  pub kind : EntryKind
  pub label : String
  pub href : String

module _ (normal lower encode : String → String) where
  abbrev matches : String → Option String → Bool
  matches q none = false
  matches q (some t) = includes q (lower t)

  abbrev nav_entry : NavTarget → Entry
  nav_entry t = record { kind = nav; label = t.label; href = t.href }

  abbrev entity_entry : AnalyticsEvent → Entry
  entity_entry e = record {
    kind = entity;
    label = (e.ip_address or "unknown") <> (" · " <> (e.action or e.event_type));
    href = "/threats?q=" <> encode (e.ip_address or "");
  }

  unfoldable pub results : List NavTarget → List AnalyticsEvent → String → List Entry
  results targets events query =
      let q = normal query in
      let blank = not (truthy (some q)) in
      let navs = map nav_entry (
        filter (λ (t : NavTarget). blank || matches q (some t.label) || matches q (some t.href))
          targets) in
      let ips = map entity_entry (
        take 5 (
          filter (λ (e : AnalyticsEvent). matches q e.ip_address || matches q e.user_id) events)) in
      take 8 (navs ++ (if blank then [] else ips))

-- `href.startsWith("/")`
abbrev starts_slash : String → Bool
starts_slash String.[] = false
starts_slash (String.◌∷◌ c s) = code c == b'/'

abbrev ends_slash : String → Bool
ends_slash String.[] = false
ends_slash (String.◌∷◌ c String.[]) = code c == b'/'
ends_slash (String.◌∷◌ c (String.◌∷◌ d s)) = ends_slash (String.◌∷◌ d s)

-- The address that `go` opens.
unfoldable pub destination : String → String
destination href =
    if starts_slash href && not (ends_slash href) && not (includes "?" href) && not (href =? "/")
    then href <> "/"
    else href

-- `Math.min` on integers.
abbrev pub min_ℤ : ℤ → ℤ → ℤ
min_ℤ a b = if leb (pos_part a + neg_part b) (pos_part b + neg_part a) then a else b

pub record Palette : Type 0 where
  pub query : String
  pub selected : ℤ
  pub is_open : Bool

-- `clampedSelected`, for `n` results.
unfoldable pub clamped : ℤ → ℕ → ℤ
clamped selected n = min_ℤ selected (pos (n - 1))

-- `results[i]`
abbrev pub at_index : List Entry → ℤ → Option Entry
at_index rs (pos i) = get_elem? rs i
at_index rs (negsuc i) = none

pub data Key : Type 0 where
  arrow_down arrow_up enter escape : Key
  types : String → Key
  hovers : ℕ → Key

unfoldable pub close : Palette → Palette
close p = record p { query = ""; is_open = false }

-- `go`, if there is an entry.
unfoldable pub go : Palette → Option Entry → Palette × Option String
unfolding close destination
go p none = (p, none)
go p (some r) = (close p, some (destination r.href))

-- A key or another input, with the results of the current query; and the address that it opens.
unfoldable pub press : (String → List Entry) → Key → Palette → Palette × Option String
unfolding clamped go close
press find arrow_down p =
    (record p { selected = min_ℤ (p.selected +ℤ pos 1) (sub_ℕ (length (find p.query)) 1) }, none)
press find arrow_up p = (record p { selected = pos (pos_part p.selected - 1) }, none)
press find enter p = go p (at_index (find p.query) (clamped p.selected (length (find p.query))))
press find escape p = (close p, none)
press find (types q) p = (record p { query = q }, none)
press find (hovers i) p = (record p { selected = pos i }, none)
