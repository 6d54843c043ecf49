-- ===== src/Core/Codes.antt =====
-- `dyad_rc_t` of dyad/common/dyad_rc.h.
use dyad.Prelude.{ℕ, ◌≡◌, refl, Bool, false, ltb}

pub data Rc : Type 0 where
  rc_ok rc_sysfail rc_noctx rc_badmetadata rc_badfio rc_badmanagedpath rc_baddtlmode rc_untracked
        rc_bad_b64decode rc_bad_comm_mode rc_bad_cli_arg_def rc_bad_cli_parse rc_badbuf rc_busy
        rc_badcachemode rc_fluxfail rc_badcommit rc_notfound rc_badfetch rc_badrpc rc_badpack
        rc_badunpack rc_rpc_finished rc_ucxinit_fail rc_ucxwait_fail rc_ucxep_fail rc_ucxcomm_fail
        rc_ucxmmap_fail rc_ucxrkey_pack_failed rc_ucxrkey_unpack_failed rc_margoinit_fail
        rc_margo_bad_proto :
      Rc

-- The value of a code is 0 or negative: this is its distance below 0.
abbrev pub below_zero : Rc → ℕ
below_zero rc_ok = 0
below_zero rc_sysfail = 1
below_zero rc_noctx = 1000
below_zero rc_badmetadata = 1001
below_zero rc_badfio = 1002
below_zero rc_badmanagedpath = 1003
below_zero rc_baddtlmode = 1004
below_zero rc_untracked = 1005
below_zero rc_bad_b64decode = 1006
below_zero rc_bad_comm_mode = 1007
below_zero rc_bad_cli_arg_def = 1008
below_zero rc_bad_cli_parse = 1009
below_zero rc_badbuf = 1010
below_zero rc_busy = 1011
below_zero rc_badcachemode = 1012
below_zero rc_fluxfail = 2000
below_zero rc_badcommit = 2001
below_zero rc_notfound = 2002
below_zero rc_badfetch = 2003
below_zero rc_badrpc = 2004
below_zero rc_badpack = 2005
below_zero rc_badunpack = 2006
below_zero rc_rpc_finished = 2007
below_zero rc_ucxinit_fail = 3001
below_zero rc_ucxwait_fail = 3002
below_zero rc_ucxep_fail = 3003
below_zero rc_ucxcomm_fail = 3004
below_zero rc_ucxmmap_fail = 3005
below_zero rc_ucxrkey_pack_failed = 3006
below_zero rc_ucxrkey_unpack_failed = 3007
below_zero rc_margoinit_fail = 4001
below_zero rc_margo_bad_proto = 4002

-- DYAD_IS_ERROR (code): the code is negative
abbrev pub is_error : Rc → Bool
is_error rc = ltb 0 (below_zero rc)

pub ok_of_not_error : (rc : Rc) → is_error rc ≡ false → rc ≡ rc_ok
ok_of_not_error rc_ok h = refl
ok_of_not_error _ h = cc
