-- ===== src/Mach/Tests.antt =====
-- The theorems about the messages of Mach at concrete inputs.
use usercorn.Base.{ℕ, ◌<◌, ◌≤◌, ◌*◌, ◌-◌, ◌≡◌, refl, ◌⊎◌, inl, inr, replicate}
use usercorn.Mach.{Header, HostInfo, panic, mach_msg_trap}
use usercorn.Mach.Replies.{Replied, port_replies_lem, host_info_lem}

abbrev request : ℕ → Header
request id = record {
  bits = 0x1513;
  size = 36;
  remote_port = 2;
  local_port = 7;
  voucher_port = 0;
  id = id;
}

abbrev args : HostInfo
args = record { ndr = replicate 8 0; flavor = 5; out_cnt = 10 }

port_replies_lem_example : Replied 4096 (request 206) 0 (mach_msg_trap 4096 (request 206) args)
port_replies_lem_example = port_replies_lem 4096 (request 206) args (inr (inl refl))

host_info_lem_example :
    ((10 < 8) × (mach_msg_trap 4096 (request 200) args ≡ panic))
    ⊎ ((8 ≤ 10) × Replied 4096 (request 200) (4 * (10 - 8)) (mach_msg_trap 4096 (request 200) args))
host_info_lem_example = host_info_lem 4096 (request 200) args refl refl refl
