-- ===== src/Network/Pins.antt =====
-- companion/tpf2mp/transport_network.py, lines 136 to 182: the pins of freight paths. The services are a
-- dict; a service that is no mapping, or has no metadata, is `none`. Where a later path of
-- `pin_moved_cargo` is refused, the code has pinned the earlier ones already; the error here has no state.
use Prim.Native.String as Text
use Prim.Native.Char.{code}
use tpf2mp.Base.{
  ℕ, zero, suc, ◌+◌, String, Bool, true, false, not, ◌&&◌, ◌||◌, Option, none, some, List, [], ◌∷◌,
  leb, ltb, if◌then◌else◌, or_else, str_eq, Result, ok, ◌>>=◌, ◌>>◌, raise_if, length, any, ◌++◌,
}
use tpf2mp.Base.Dict.{Dict, lookup, insert, keys}
use tpf2mp.Base.Sort.{sorted}

-- What a freight contract's metadata says; `has_contract` that its schema is 2.
pub record FreightMetadata : Type 0 where
  pub has_contract : Bool
  pub path_digest : Option String
  pub pinned_path_digest : Option String

abbrev pub FreightServices : Type 0
FreightServices = Dict (Option FreightMetadata)

pub data PinError : Type 0 where
  invalid_identity conflicts no_active_legs disagrees : PinError

-- `re.fullmatch(r"[0-9a-f]{8}", text)`
abbrev is_hex : ℕ → Bool
is_hex c = (leb 48 c && leb c 57) || (leb 97 c && leb c 102)

abbrev hex_digits : ℕ → String → Bool
hex_digits zero Text.[] = true
hex_digits (suc n) (Text.◌∷◌ c s) = is_hex (code c) && hex_digits n s
hex_digits _ _ = false

unfoldable pub is_path_digest : String → Bool
is_path_digest text = hex_digits 8 text

abbrev pub says : Option String → String → Bool
says none text = false
says (some digest) text = str_eq digest text

-- `freightPathDigest` is the path.
abbrev pub is_target : String → Option (Option FreightMetadata) → Bool
is_target digest none = false
is_target digest (some none) = false
is_target digest (some (some metadata)) = says metadata.path_digest digest

-- The contract's schema is another one, or another path is pinned.
abbrev pub in_conflict : String → Option (Option FreightMetadata) → Bool
in_conflict digest (some (some metadata)) =
    not metadata.has_contract
    || not (says (some (or_else metadata.pinned_path_digest digest)) digest)
in_conflict digest _ = false

-- The lines whose metadata are the targets, in order.
unfoldable pub targets : FreightServices → String → List String → Result PinError (List String)
targets services digest [] = ok []
targets services digest (line_cid ∷ lines) =
    let service = lookup line_cid services in
    let rest = targets services digest lines in
    if is_target digest service
    then raise_if (in_conflict digest service) conflicts
      >> rest
      >>= (λ later. ok (line_cid ∷ later))
    else rest

abbrev pub pinned : String → Option (Option FreightMetadata) → Option FreightMetadata
pinned digest (some (some metadata)) = some (record metadata { pinned_path_digest = some digest })
pinned digest _ = none

unfoldable pub pin_all : FreightServices → String → List String → FreightServices
pin_all services digest [] = services
pin_all services digest (line_cid ∷ lines) =
    pin_all (insert line_cid (pinned digest (lookup line_cid services)) services) digest lines

unfoldable pub pin_path : FreightServices → String → Result PinError (ℕ × FreightServices)
unfolding targets pin_all is_path_digest
pin_path services digest =
    raise_if (not (is_path_digest digest)) invalid_identity
    >> targets services digest (sorted (keys services))
    >>= λ lines.
        raise_if (leb (length lines) 0) no_active_legs
        >> ok (length lines, pin_all services digest lines)

-- `str(metadata.get("freightPathDigest", ""))`, where neither text that stands for no digest is one.
abbrev pin_contract :
    FreightServices → Option (Option FreightMetadata) → Result PinError (ℕ × FreightServices)
pin_contract services (some (some metadata)) =
    if metadata.has_contract
    then pin_path services (or_else metadata.path_digest "")
    else ok (0, services)
pin_contract services _ = ok (0, services)

unfoldable pub pin_cargo_line : FreightServices → String → Result PinError (ℕ × FreightServices)
unfolding pin_path
pin_cargo_line services line_cid = pin_contract services (lookup line_cid services)

-- A line of the delivery snapshot; a row that is no mapping is not in the dict.
pub record MovedLine : Type 0 where
  pub has_schema : Bool
  pub boarded_units : ℕ
  pub delivered_units : ℕ
  pub path_digest : Option String

abbrev has_moved : MovedLine → Bool
has_moved row = row.has_schema && (ltb 0 row.boarded_units || ltb 0 row.delivered_units)

abbrev same_digest : Option String → Option String → Bool
same_digest none none = true
same_digest none (some d) = false
same_digest (some c) d = says d c

abbrev agrees : Option (Option FreightMetadata) → MovedLine → Bool
agrees (some (some metadata)) row =
    metadata.has_contract && same_digest metadata.path_digest row.path_digest
agrees _ row = false

abbrev add_path : String → List String → List String
add_path path paths = if any (λ p. str_eq p path) paths then paths else paths ++ path ∷ []

-- One round of the loop, where `next` is the rest of it. A digest that is missing counts as `None`.
abbrev moved_line :
    FreightServices
    → (List String → Result PinError (List String))
    → String
    → Option MovedLine
    → List String
    → Result PinError (List String)
moved_line services next line_cid none paths = next paths
moved_line services next line_cid (some row) paths =
    if has_moved row
    then raise_if (not (agrees (lookup line_cid services) row)) disagrees
      >> next (add_path (or_else row.path_digest "None") paths)
    else next paths

-- The paths of the lines that have moved.
unfoldable pub moved_paths :
    FreightServices → Dict MovedLine → List String → List String → Result PinError (List String)
moved_paths services rows [] paths = ok paths
moved_paths services rows (line_cid ∷ lines) paths =
    moved_line services (moved_paths services rows lines) line_cid (lookup line_cid rows) paths

unfoldable pub pin_paths : FreightServices → List String → Result PinError (ℕ × FreightServices)
unfolding pin_path
pin_paths services [] = ok (0, services)
pin_paths services (path ∷ paths) = pin_path services path >>= λ first.
    pin_paths first.1 paths >>= λ later. ok (first.0 + later.0, later.1)

unfoldable pub pin_moved_cargo :
    FreightServices → Dict MovedLine → Result PinError (ℕ × FreightServices)
unfolding moved_paths pin_paths
pin_moved_cargo services cargo_lines =
    moved_paths services cargo_lines (sorted (keys cargo_lines)) [] >>= λ paths.
    pin_paths services (sorted paths)
