-- ===== src/Config/Examples.antt =====
-- A config file with one section: tests and instances.
use nazg.Base.{◌≡◌, refl, true, false, some, [], ◌∷◌, ◌++◌, Bytes, codes}
use nazg.Base.Int.{pos, negsuc}
use nazg.Base.Getline.{split_lines}
use nazg.Config.{load, get_string, get_int, stoi, get_bool, set_value}
use nazg.Config.Edits.{with_setting, load-with_setting}

abbrev text : Bytes
text =
    codes "# a comment"
    ++ b'\n' ∷ codes " [ brain ] "
    ++ b'\n' ∷ codes "depth = -12"
    ++ b'\n' ∷ codes "on = 'Yes'"

load-text :
    load (some text)
    ≡ (codes "brain", (codes "depth", codes "-12") ∷ (codes "on", codes "Yes") ∷ []) ∷ []
unfolding load split_lines
load-text = refl

get_int-text : get_int (load (some text)) (codes "brain") (codes "depth") (pos 1) ≡ negsuc 11
unfolding get_int stoi get_string load split_lines
get_int-text = refl

get_bool-text : get_bool (load (some text)) (codes "brain") (codes "on") false ≡ true
unfolding get_bool get_string load split_lines
get_bool-text = refl

load-with_setting_example :
    load (some (with_setting text (codes "nexus") (codes "db path") (codes "a = \"b\" # c")))
    ≡ set_value (codes "nexus") (codes "db path") (codes "a = \"b\" # c") (load (some text))
load-with_setting_example =
    load-with_setting text (codes "nexus") (codes "db path") (codes "a = \"b\" # c") refl refl refl
