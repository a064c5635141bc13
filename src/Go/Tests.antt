-- ===== src/Go/Tests.antt =====
-- The string and path functions on the inputs of the Go documentation.
use runtime_class_manager.Base.{◌≡◌, refl, true, [], ◌∷◌, some, none, txt, text_eq}
use runtime_class_manager.Go.Strings.{trim_prefix, cut_suffix, remove_all, equal_fold}
use runtime_class_manager.Go.Paths.{clean, path_join, base, dir}
use runtime_class_manager.Go.Hex.{decode}

trim_shim : trim_prefix (txt "containerd-shim-spin-v1") (txt "containerd-shim-") ≡ txt "spin-v1"
unfolding trim_prefix txt
trim_shim = refl

cut_tmpl : cut_suffix (txt "/etc/config.toml.tmpl") (txt ".tmpl") ≡ txt "/etc/config.toml"
unfolding cut_suffix txt
cut_tmpl = refl

remove_ab : remove_all (txt "xababaaby") (txt "ab") ≡ txt "xay"
unfolding remove_all txt
remove_ab = refl

fold_linux : equal_fold (txt "Linux") (txt "linux") ≡ true
unfolding equal_fold txt
fold_linux = refl

join_bin : path_join (txt "/opt/rcm/" ∷ txt "bin" ∷ [] ∷ txt "../spin" ∷ []) ≡ txt "/opt/rcm/spin"
unfolding path_join txt
join_bin = refl

clean_up : clean (txt "../a/./b//../../../c/") ≡ txt "../../c"
unfolding clean txt
clean_up = refl

base_slashes : base (txt "/opt/bin//") ≡ txt "bin"
unfolding base txt
base_slashes = refl

dir_file : dir (txt "/opt/rcm/bin/spin") ≡ txt "/opt/rcm/bin"
unfolding dir txt
dir_file = refl

hex_two : decode (txt "2") ≡ none
unfolding decode txt
hex_two = refl

hex_upper : decode (txt "6Da5") ≡ some (109 ∷ 165 ∷ [])
unfolding decode txt
hex_upper = refl
