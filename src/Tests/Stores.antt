-- ===== src/Tests/Stores.antt =====
-- The recent servers and the command palette at concrete inputs.
use xp_panel.Shared.{
  ◌≡◌, true, false, Text, codes, none, some, List, [], ◌∷◌, text_eq, has_substring, trim, is_space,
  trim_start, pos,
}
use xp_panel.Stores.Servers.{
  ActiveServer, active, no_servers, Call, sets_active, adds_recent, calls,
}
use xp_panel.Stores.Servers.Laws.{recent_five}
use xp_panel.Stores.Ui.{Key}
use xp_panel.Stores.Palette.{Palette, commands, filtered, on_key}

abbrev server : Text → ActiveServer
server i = record {
  id = i;
  hostname = codes "h";
  ip = codes "10.0.0.1";
  status = active;
  datacenter = none;
  os_type = none;
}

abbrev three_calls : List Call
three_calls =
    adds_recent (server (codes "a"))
    ∷ sets_active (some (server (codes "b")))
    ∷ adds_recent (server (codes "a"))
    ∷ []

recent_five_example :
    (calls three_calls no_servers).recent_servers ≡ server (codes "a") ∷ server (codes "b") ∷ []
unfolding text_eq
recent_five_example = (recent_five three_calls).0

abbrev as_is : Text → Text
as_is s = s

abbrev press : Text → Key
press k = record { meta = false; ctrl = false; key = k }

abbrev shown : Palette
shown = record { open_now = true; query = []; selected = pos 0 }

palette : Unit {0}
unfolding filtered trim trim_start is_space commands on_key text_eq has_substring
palette = tt

abbrev chord : Key
chord = record { meta = false; ctrl = true; key = codes "k" }
