-- ===== src/Apt/Examples.antt =====
-- Examples of the theorems on the classes of URIs.
use squiddish.Prelude.{◌≡◌, refl, true}
use squiddish.Text.{Bytes, codes, ends_with, contains}
use squiddish.Apt.{is_apt_request, is_apt_package_list, is_apt_package_file}
use squiddish.Apt.Classes.{special-is_apt_request}

abbrev release : Bytes
release = codes "http://mirror/debian/dists/sid/Release"

special-is_apt_request_example : is_apt_request release ≡ true
unfolding is_apt_package_list is_apt_package_file ends_with contains
special-is_apt_request_example = special-is_apt_request release refl
