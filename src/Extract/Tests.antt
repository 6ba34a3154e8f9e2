-- ===== src/Extract/Tests.antt =====
-- Runs of src/extract, and its theorems at concrete inputs.
use coapum.Prelude.{◌≡◌, refl, some, [], ◌∷◌, ok, String, List, codes}
use coapum.Extract.Path.{extract_wildcard_param, extract_wildcard_path, from_request}
use coapum.Extract.Path.Laws.{from_request-join}

-- Of a device's path the whole rest is taken, not the last segment.
param_of_device : extract_wildcard_param (codes ".d/abc/props") ≡ some (codes "abc/props")
unfolding extract_wildcard_param
param_of_device = refl

param_of_other : extract_wildcard_param (codes "/devices/abc/props") ≡ some (codes "props")
unfolding extract_wildcard_param
param_of_other = refl

path_of_other : extract_wildcard_path (codes "/devices/abc/props") ≡ some (codes "abc/props")
unfolding extract_wildcard_path
path_of_other = refl

abbrev device_path : String
device_path = codes "/devices/abc/props/t"

abbrev device_pattern : String
device_pattern = codes "/devices/{id}/props/{name}"

abbrev device_params : List (String × String)
device_params = (codes "id", codes "abc") ∷ (codes "name", codes "t") ∷ []

from_request-join_example :
    (from_request (codes "t/a/b") ≡ ok (codes "a/b"))
    × (from_request (codes "/t/a/b") ≡ ok (codes "a/b"))
from_request-join_example = from_request-join b't' [] b'a' (codes "/b") (refl, tt)
