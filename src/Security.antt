-- ===== src/Security.antt =====
-- computekernel_edu/security.py: capabilities, user pointers and credentials.
pub mod Laws
use compute_kernel_python.Prelude.{
  ℕ, zero, suc, ◌+◌, String, Bool, true, false, ◌&&◌, ◌||◌, List, [], ◌∷◌, ℤ, pos, negsuc, ltb, any,
  if◌then◌else◌,
}
use compute_kernel_python.Prelude.Eq.{◌==◌, nat_eq, string_eq}
use compute_kernel_python.Process.{Credentials, is_root}

abbrev pub cap_sys_admin : ℕ
cap_sys_admin = 21

unfoldable pub check_permission : Credentials → ℕ → Bool
check_permission creds capability = if creds.euid == 0 then true else false

abbrev pub user_max : ℕ
user_max = 0x00007FFFFFFFFFFF

unfoldable pub validate_user_pointer : ℤ → ℤ → Bool
validate_user_pointer (pos addr) (pos size) =
    if addr == 0 || size == 0 then false else if ltb user_max (addr + size) then false else true
validate_user_pointer _ _ = false

unfoldable pub create_creds : ℕ → ℕ → Credentials
create_creds uid gid = record { uid = uid; gid = gid; euid = uid; egid = gid }

-- `s in [...]`
abbrev pub is_one_of : String → List String → Bool
is_one_of s names = any (λ x. x == s) names

abbrev pub restricted : List String
restricted = "/proc/kcore" ∷ "/dev/mem" ∷ "/dev/port" ∷ []

unfoldable pub check_vfs_open : Credentials → String → Bool → Bool
unfolding is_root
check_vfs_open creds path write =
    if is_root creds then true else if is_one_of path restricted then false else true

abbrev pub privileged_syscalls : List String
privileged_syscalls = "init_module" ∷ "delete_module" ∷ "reboot" ∷ "kexec_load" ∷ []

unfoldable pub check_syscall : Credentials → String → Bool
unfolding check_permission
check_syscall creds syscall_name =
    if is_one_of syscall_name privileged_syscalls
    then check_permission creds cap_sys_admin
    else true

unfoldable pub drop_privileges : Credentials → ℕ → Credentials
drop_privileges creds new_uid = record {
  uid = new_uid;
  gid = creds.gid;
  euid = new_uid;
  egid = creds.egid;
}
