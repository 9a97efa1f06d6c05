-- ===== src/Pmon/Message.antt =====
-- `set_proc_ev_listen` of pmon.c: the message that it sends, byte by byte, on a machine with the
-- lowest byte first.
use linux_summary.Base.{
  ℕ, zero, suc, ◌+◌, ◌*◌, ◌/◌, ◌%◌, ◌^◌, ◌<◌, ◌≡◌, refl, Bool, true, false, List, set, get_or,
  length, replicate, if◌then◌else◌, arith, ◌-◌,
}
use linux_summary.Base.Int.{ℤ, pos, negsuc}

-- A field of `width` bytes at an offset.
unfoldable pub store : (width offset v : ℕ) → List ℕ → List ℕ
store zero offset v bytes = bytes
store (suc w) offset v bytes = store w (offset + 1) (v / 256) (set bytes offset (v % 256))

unfoldable pub load : (width offset : ℕ) → List ℕ → ℕ
load zero offset bytes = 0
load (suc w) offset bytes = get_or bytes offset 0 + 256 * load w (offset + 1) bytes

-- The fields that the function sets: `nlmsghdr` has 16 bytes, and `cn_msg` the 20 behind them.
abbrev pub size : ℕ
size = 40

abbrev pub set_nlmsg_len : List ℕ → List ℕ
set_nlmsg_len = store 4 0 size

abbrev pub set_nlmsg_pid : ℕ → List ℕ → List ℕ
set_nlmsg_pid pid = store 4 12 pid

-- `NLMSG_DONE`
abbrev pub set_nlmsg_type : List ℕ → List ℕ
set_nlmsg_type = store 2 4 3

-- `CN_IDX_PROC`, `CN_VAL_PROC`
abbrev pub set_id : List ℕ → List ℕ
set_id m = store 4 20 1 (store 4 16 1 m)

-- `sizeof(enum proc_cn_mcast_op)`
abbrev pub set_len : List ℕ → List ℕ
set_len = store 2 32 4

-- `PROC_CN_MCAST_LISTEN`, `PROC_CN_MCAST_IGNORE`
abbrev pub mcast : Bool → ℕ
mcast enable = if enable then 1 else 2

unfoldable pub nlcn_msg : (pid : ℕ) → (enable : Bool) → List ℕ
unfolding store
nlcn_msg pid enable =
    store 4 36 (mcast enable)
      (set_len (set_id (set_nlmsg_type (set_nlmsg_pid pid (set_nlmsg_len (replicate size 0))))))

-- `send` says whether it takes the bytes.
unfoldable pub set_proc_ev_listen : (send : List ℕ → Bool) → (pid : ℕ) → Bool → ℤ
unfolding nlcn_msg
set_proc_ev_listen send pid enable = if send (nlcn_msg pid enable) then pos 0 else negsuc 0

-- What the message says: every field of the two headers, and the operation.
pub record Says (pid : ℕ) (op : ℕ) (m : List ℕ) : Type 0 where
  pub whole : length m ≡ load 4 0 m
  pub type : load 2 4 m ≡ 3
  pub flags : load 2 6 m ≡ 0
  pub seq : load 4 8 m ≡ 0
  pub sender : load 4 12 m ≡ pid
  pub idx : load 4 16 m ≡ 1
  pub val : load 4 20 m ≡ 1
  pub unused : load 8 24 m ≡ 0
  pub len : load 2 32 m ≡ length m - 36
  pub cn_flags : load 2 34 m ≡ 0
  pub operation : load 4 36 m ≡ op

nlcn_msg-Says :
    (pid : ℕ) (enable : Bool) → pid < 2 ^ 32 → Says pid (mcast enable) (nlcn_msg pid enable)
unfolding nlcn_msg load
nlcn_msg-Says pid true h = record {
  whole = refl;
  type = refl;
  flags = refl;
  seq = refl;
  sender = omega arith;
  idx = refl;
  val = refl;
  unused = refl;
  len = refl;
  cn_flags = refl;
  operation = refl;
}
nlcn_msg-Says pid false h = record {
  whole = refl;
  type = refl;
  flags = refl;
  seq = refl;
  sender = omega arith;
  idx = refl;
  val = refl;
  unused = refl;
  len = refl;
  cn_flags = refl;
  operation = refl;
}

-- For a process number of 32 bits: the message that is handed to `send` has 40 bytes and says so,
-- and the fields of its two headers are read back from it as they were set: the sender, the
-- connector of process events, the length of what follows, and the operation, 1 to listen and 2
-- to ignore; all others are 0. The result is 0 exactly if `send` takes it.
pub set_proc_ev_listen-Says :
    (pid : ℕ) (enable : Bool)
    → pid < 2 ^ 32
    → (m : List ℕ) × Says pid (if enable then 1 else 2) m
      × (length m ≡ 40)
      × ((send : List ℕ → Bool)
          → set_proc_ev_listen send pid enable ≡ (if send m then pos 0 else negsuc 0))
unfolding set_proc_ev_listen
set_proc_ev_listen-Says pid enable h =
    (nlcn_msg pid enable, nlcn_msg-Says pid enable h, refl, λ send. refl)
