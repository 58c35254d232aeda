-- ===== src/Security/Laws.antt =====
-- User pointers stay in user space, and dropped privileges are gone.
use compute_kernel_python.Prelude.{
  ℕ, ◌+◌, ◌≤◌, ◌<◌, String, ◌≡◌, ◌≢◌, ◌↔◌, refl, Bool, true, false, ℤ, pos, negsuc, not,
  if◌then◌else◌, arith,
}
use compute_kernel_python.Prelude.Eq.{◌==◌, nat_eq, string_eq}
use compute_kernel_python.Process.{Credentials, is_root}
use compute_kernel_python.Security.{
  check_permission, user_max, validate_user_pointer, is_one_of, restricted, check_vfs_open,
  privileged_syscalls, check_syscall, drop_privileges,
}

-- A pointer is accepted exactly if its address and its size are positive and the end of its range,
-- which is the first address behind it, is at most 0x00007FFFFFFFFFFF.
pub validate_user_pointer_iff :
    (addr size : ℤ)
    → (validate_user_pointer addr size ≡ true) ↔ (
        (a : ℕ) × (n : ℕ) × (addr ≡ pos a)
        × (size ≡ pos n)
        × (0 < a)
        × (0 < n)
        × (a + n ≤ user_max))
unfolding validate_user_pointer
validate_user_pointer_iff (pos a) (pos n) = (
  λ h. (a, n, refl, refl, ground arith, ground arith, ground arith),
  λ (b, m, e, f, x, y, z). ground arith,
)
validate_user_pointer_iff (pos a) (negsuc n) =
    (λ h. absurd (cc), λ (b, m, e, f, x, y, z). absurd (cc))
validate_user_pointer_iff (negsuc a) (pos n) =
    (λ h. absurd (cc), λ (b, m, e, f, x, y, z). absurd (cc))
validate_user_pointer_iff (negsuc a) (negsuc n) =
    (λ h. absurd (cc), λ (b, m, e, f, x, y, z). absurd (cc))

-- Whoever drops to a user other than root may afterwards use no capability, open no restricted file
-- and make no privileged call, and may still do all the rest; the groups stay as they were.
pub drop_privileges_lem :
    (creds : Credentials) (new_uid capability : ℕ) (path name : String) (write : Bool)
    → new_uid ≢ 0
    → (check_permission (drop_privileges creds new_uid) capability ≡ false)
      × (check_vfs_open (drop_privileges creds new_uid) path write
          ≡ not (is_one_of path restricted))
      × (check_syscall (drop_privileges creds new_uid) name
          ≡ not (is_one_of name privileged_syscalls))
      × ((drop_privileges creds new_uid).gid ≡ creds.gid)
      × ((drop_privileges creds new_uid).egid ≡ creds.egid)
unfolding check_permission drop_privileges check_vfs_open check_syscall is_root
drop_privileges_lem creds new_uid capability path name write ne =
    let r : (new_uid == 0) ≡ false = ground arith in
    (rw r, rw r (negated _), rw r (negated _), refl, refl)
  where
    negated : (b : Bool) → (if b then false else true) ≡ not b
    negated true = refl
    negated false = refl
