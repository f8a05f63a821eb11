-- ===== src/Vault2/Vault/Examples.antt =====
-- Paths and times, run and at small inputs.
use desktop_folder_locker.Common.{◌≡◌, refl, List, [], ◌∷◌, arith}
use desktop_folder_locker.Common.Text.{Text, codes}
use desktop_folder_locker.Vault2.Error.{ok, err, Error}
use desktop_folder_locker.Vault2.Names.Defs.{check_name}
use desktop_folder_locker.Vault2.Platform.{file_time, system_time, file_time-system_time}
use desktop_folder_locker.Vault2.Vault.Paths.{
  parts_of, check_all, components, path_of, AreValid, components-path_of,
}

split_path :
    (components (codes "/Photos\\\\cat.jpg/") ≡ ok (codes "Photos" ∷ codes "cat.jpg" ∷ []))
    × (components (codes "\\Photos\\..\\cat.jpg") ≡ err Error.invalid_name)
unfolding components check_all parts_of check_name
split_path = (refl, refl)

abbrev names : List Text
names = codes "Photos" ∷ codes "cat.jpg" ∷ []

names-AreValid : AreValid names
unfolding check_name
names-AreValid = (refl, (refl, tt))

components-path_of_example : components (path_of names) ≡ ok names
components-path_of_example = components-path_of names names-AreValid

photos : components (codes "/Photos\\\\cat.jpg/") ≡ ok names
unfolding components check_all parts_of check_name
photos = refl

file_time-system_time_example : file_time (system_time 123456789012345) ≡ 123456789012345
file_time-system_time_example = file_time-system_time 123456789012345 (omega arith)
