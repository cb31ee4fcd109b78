-- ===== src/Update/Info.antt =====
-- src/update/mod.rs: what is constant in an update; and `A2lVersion` of src/main.rs.
use a2ltool.Prelude.{ℕ, Text, Bool, List, Option, none, some, leb, ◌==◌, ◌&&◌, if◌then◌else◌}
use a2ltool.DebugInfo.{DebugData}

pub data A2lVersion : Type 0 where
  v1_5_0 v1_5_1 v1_6_0 v1_6_1 v1_7_0 v1_7_1 : A2lVersion

abbrev version_rank : A2lVersion → ℕ
version_rank v1_5_0 = 0
version_rank v1_5_1 = 1
version_rank v1_6_0 = 2
version_rank v1_6_1 = 3
version_rank v1_7_0 = 4
version_rank v1_7_1 = 5

-- `v >= least`, in the order of the constructors.
abbrev pub version_at_least : A2lVersion → A2lVersion → Bool
version_at_least v least = leb (version_rank least) (version_rank v)

-- The version of a file, from the numbers of its ASAP2_VERSION.
unfoldable pub version_of : Option (ℕ × ℕ) → A2lVersion
version_of none = v1_5_0
version_of (some (version_no, upgrade_no)) =
    if version_no == 1 && upgrade_no == 51
    then v1_5_1
    else if version_no == 1 && upgrade_no == 60
    then v1_6_0
    else if version_no == 1 && upgrade_no == 61
    then v1_6_1
    else if version_no == 1 && upgrade_no == 70
    then v1_7_0
    else if version_no == 1 && upgrade_no == 71
    then v1_7_1
    else v1_5_0

pub record A2lUpdateInfo : Type 0 where
  pub debug_data : DebugData
  pub preserve_unknown : Bool
  pub strict_update : Bool
  pub full_update : Bool
  pub version : A2lVersion
  pub enable_structures : Bool
  pub compu_method_index : List (Text × ℕ)
