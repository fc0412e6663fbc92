-- ===== src/Prelude/Json.antt =====
-- JSON as Go's encoding/json decodes it into an empty interface, and the library calls that the
-- program makes on such values. The fields of an object stand in the order in which a range over
-- the map meets them.
use Prim.Native.String.{String}
use mathlib.Core.Bool.{Bool}
use mathlib.Core.Option.{Option, none, some}
use complete_dashboard.Prelude.Tests.{if◌then◌else◌}
use complete_dashboard.Prelude.Text.{str_eq}

mutual
  pub data Json (F : Type 0) : Type 0 where
    null : Json F
    flag : Bool → Json F
    num : F → Json F
    str : String → Json F
    arr : Items F → Json F
    obj : Members F → Json F

  pub data Items (F : Type 0) : Type 0 where
    last : Items F
    item : Json F → Items F → Items F

  pub data Members (F : Type 0) : Type 0 where
    end : Members F
    member : String → Json F → Members F → Members F

-- json.Unmarshal, json.Marshal of a map, fmt's %v and %.0f, fmt.Sscanf with %f (0 where it reads
-- nothing) and strconv.ParseFloat.
pub record JsonText (F : Type 0) : Type 0 where
  pub unmarshal : String → Option (Json F)
  pub marshal_object : Members F → String
  pub print_value : Json F → String
  pub print_whole : F → String
  pub scan_float : String → F
  pub parse_float : String → Option F

-- v, ok := m[key]
unfoldable pub get_member : {F : Type 0} → Members F → String → Option (Json F)
get_member end key = none
get_member (member k v m) key = if str_eq k key then some v else get_member m key
