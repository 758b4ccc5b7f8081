-- ===== src/Meta/Catalog.antt =====
-- The whole catalog: METHODS in the order of the source, and NON_BULK_METHODS.
pub mod Part1
pub mod Part2
pub mod Part3
pub mod Part4
pub mod Part5
pub mod Part6
use telegram_bot_delivery_en.Base.{String, List, [], ◌∷◌, ◌++◌}
use telegram_bot_delivery_en.Meta.Spec.{MethodSpec}
use Part1.{part_1}
use Part2.{part_2}
use Part3.{part_3}
use Part4.{part_4}
use Part5.{part_5}
use Part6.{part_6}

abbrev pub methods : List MethodSpec
methods = part_1 ++ part_2 ++ part_3 ++ part_4 ++ part_5 ++ part_6

abbrev pub non_bulk_methods : List String
non_bulk_methods =
    "close" ∷ "logout" ∷ "getupdates" ∷ "setwebhook" ∷ "deletewebhook" ∷ "getwebhookinfo" ∷ "getme"
    ∷ "getfile" ∷ "getchat" ∷ "getchatadministrators" ∷ "getchatmembercount" ∷ "getchatmember"
    ∷ "getuserprofilephotos" ∷ "getstickerset" ∷ "getcustomemojistickers"
    ∷ "getforumtopiciconstickers" ∷ "getmycommands" ∷ "getmyname" ∷ "getmydescription"
    ∷ "getmyshortdescription" ∷ "getchatmenubutton" ∷ "getmydefaultadministratorrights"
    ∷ "getstartransactions" ∷ "getavailablegifts" ∷ "getbusinessconnection" ∷ "getgamehighscores"
    ∷ "getuserchatboosts" ∷ []
