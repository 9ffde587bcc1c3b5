-- ===== src/Apt.antt =====
-- src/apt.rs: which requests come from APT, and of which kind.
pub mod Classes
mod Examples
use squiddish.Prelude.{Bool, true, ◌&&◌, ◌||◌, List, [], ◌∷◌, any, if◌then◌else◌}
use squiddish.Text.{Bytes, codes, contains, ends_with}

abbrev pub apt_hosts : List Bytes
apt_hosts =
    codes "://deb.debian.org"
    ∷ codes "://archive.ubuntu.com"
    ∷ codes "://security.ubuntu.com"
    ∷ codes "://security.debian.org"
    ∷ codes "://ppa.launchpad.net"
    ∷ []

abbrev pub apt_dirs : List Bytes
apt_dirs = codes "/dists/" ∷ codes "/pool/" ∷ []

abbrev pub apt_files : List Bytes
apt_files =
    codes "Packages.gz"
    ∷ codes "Packages.xz"
    ∷ codes "Packages.bz2"
    ∷ codes "Release.gpg"
    ∷ codes "InRelease"
    ∷ []

abbrev pub list_patterns : List Bytes
list_patterns =
    codes "Packages.gz" ∷ codes "Packages.xz" ∷ codes "Packages.bz2" ∷ codes "InRelease" ∷ []

pub is_apt_request : Bytes → Bool
is_apt_request uri =
    if any (λ host. contains host uri) apt_hosts
    then true
    else if any (λ dir. contains dir uri) apt_dirs
    then true
    else if any (λ pattern. contains pattern uri) apt_files
    then true
    else ends_with (codes ".deb") uri

pub is_apt_package_list : Bytes → Bool
is_apt_package_list uri =
    if any (λ pattern. contains pattern uri) list_patterns
    then true
    else contains (codes "/dists/") uri
      && (ends_with (codes "/Release") uri || ends_with (codes "/Release.gpg") uri)

pub is_apt_package_file : Bytes → Bool
is_apt_package_file uri = ends_with (codes ".deb") uri
