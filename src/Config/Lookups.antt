-- ===== src/Config/Lookups.antt =====
-- modules/config/src/config.cpp: the questions to the settings.
use nazg.Base.{◌≡◌, refl, Option, none, some, ◌&&◌, arith, Bytes, ◌=ᵇ◌, =ᵇ_iff, if◌then◌else◌}
use nazg.Base.Dict.{Dict, lookup, insert, lookup-insert}
use nazg.Base.Members.{contains_bytes, lookup-keys}
use nazg.Config.{
  Config, set_value, section_or_empty, get_string, has, has_in, section_keys, keys_in,
}

-- After `data_[section][key] = value`, `get_string` returns that value for that key of that
-- section, and what it returned before for every other.
pub get_string-set_value :
    (config : Config) (section key value section' key' default_val : Bytes)
    → get_string (set_value section key value config) section' key' default_val ≡ (
        if section =ᵇ section' && key =ᵇ key'
        then value
        else get_string config section' key' default_val)
unfolding get_string
get_string-set_value config section key value section' key' default_val = ground (
  arith,
  =ᵇ_iff section section',
  lookup-insert section section' (insert key value (section_or_empty (lookup section config)))
      config,
  lookup-insert key key' value (section_or_empty (lookup section config)),
)

has_in-keys_in :
    (values : Option (Dict Bytes)) (key : Bytes)
    → has_in values key ≡ contains_bytes key (keys_in values)
has_in-keys_in none key = refl
has_in-keys_in (some values) key = lookup-keys key values

-- `has` finds a key exactly if it is one of the section's `keys`.
pub has-section_keys :
    (config : Config) (section key : Bytes)
    → has config section key ≡ contains_bytes key (section_keys config section)
unfolding has section_keys
has-section_keys config section key = has_in-keys_in (lookup section config) key
