-- ===== src/Router/Constants/Ids.antt =====
-- programs/arbitrage/src/constants.rs: program ids, mints, PDA seeds and discriminators. A public
-- key is its 32 bytes read as one big-endian number, the value of its base58 text.
use solana_atomic_arbitrage.Base.{ℕ, List, [], ◌∷◌}
use solana_atomic_arbitrage.Router.Types.{Pubkey}

abbrev pub pump_swap_id : Pubkey
pump_swap_id = 0xc14defc825ec67694250818bb654065f4298d3156d571b4d4f8090c18e9a863

abbrev pub dlmm_id : Pubkey
dlmm_id = 0x4e9e12fbc84e826c932cce9e2640cce15590c1c6273b0925708ba3b8520b0bc

abbrev pub cpmm_id : Pubkey
cpmm_id = 0xa92a5a8b4f295952842550aa93fd5b95b5ace6a8eb920c93942e43690c20ec73

abbrev pub whirlpool_id : Pubkey
whirlpool_id = 0xe03685f8e909053e458121c66f5a76aedc7706aa11c82f8aa952a8f2b7879a9

abbrev pub token_id : Pubkey
token_id = 0x6ddf6e1d765a193d9cbe146ceeb79ac1cb485ed5f5b37913a8cf5857eff00a9

abbrev pub system_id : Pubkey
system_id = 0

abbrev pub ata_id : Pubkey
ata_id = 0x8c97258f4e2489f1bb3d1029148e0d830b5a1399daff1084048e7bd8dbe9f859

abbrev pub fee_program_id : Pubkey
fee_program_id = 0xc35ffa9055a8e568da8f7bc075615274cf1c92ca41f40009c516aa414c27c70

abbrev pub memo_id : Pubkey
memo_id = 0x54a535a992921064d24e87160da387c7c35b5ddbc92bb81e41fa8404105448d

abbrev pub dlmm_event_auth : Pubkey
dlmm_event_auth = 0xb270d67fa98c51cf0213051358962baf35742bed59c9d9445e9c0d0c85c7cd91

abbrev pub native_sol_mint : Pubkey
native_sol_mint = 0x69b8857feab8184fb687f634618c035dac439dc1aeb3b5598a0f00000000001

-- "__event_authority"
abbrev pub pump_event_auth_seed : List ℕ
pump_event_auth_seed =
    95 ∷ 95 ∷ 101 ∷ 118 ∷ 101 ∷ 110 ∷ 116 ∷ 95 ∷ 97 ∷ 117 ∷ 116 ∷ 104 ∷ 111 ∷ 114 ∷ 105 ∷ 116 ∷ 121
    ∷ []

-- "global_config"
abbrev pub pump_global_config_seed : List ℕ
pump_global_config_seed =
    103 ∷ 108 ∷ 111 ∷ 98 ∷ 97 ∷ 108 ∷ 95 ∷ 99 ∷ 111 ∷ 110 ∷ 102 ∷ 105 ∷ 103 ∷ []

-- "fee_config"
abbrev pub pump_fee_config_seed : List ℕ
pump_fee_config_seed = 102 ∷ 101 ∷ 101 ∷ 95 ∷ 99 ∷ 111 ∷ 110 ∷ 102 ∷ 105 ∷ 103 ∷ []

-- "oracle"
abbrev pub dlmm_oracle_seed : List ℕ
dlmm_oracle_seed = 111 ∷ 114 ∷ 97 ∷ 99 ∷ 108 ∷ 101 ∷ []

-- "vault_and_lp"
abbrev pub cpmm_auth_seed : List ℕ
cpmm_auth_seed = 118 ∷ 97 ∷ 117 ∷ 108 ∷ 116 ∷ 95 ∷ 97 ∷ 110 ∷ 100 ∷ 95 ∷ 108 ∷ 112 ∷ []

-- "authority"
abbrev pub whirlpool_auth_seed : List ℕ
whirlpool_auth_seed = 97 ∷ 117 ∷ 116 ∷ 104 ∷ 111 ∷ 114 ∷ 105 ∷ 116 ∷ 121 ∷ []

abbrev pub route_pump_to_dlmm_disc : List ℕ
route_pump_to_dlmm_disc = 0x8b ∷ 0xe8 ∷ 0x20 ∷ 0x55 ∷ 0xc1 ∷ 0xb0 ∷ 0xc1 ∷ 0xe9 ∷ []

abbrev pub route_dlmm_to_pump_disc : List ℕ
route_dlmm_to_pump_disc = 0x17 ∷ 0x6e ∷ 0xcc ∷ 0x5d ∷ 0xdd ∷ 0x93 ∷ 0x51 ∷ 0x95 ∷ []

abbrev pub pump_buy_disc : List ℕ
pump_buy_disc = 0xc6 ∷ 0x2e ∷ 0x15 ∷ 0x52 ∷ 0xb4 ∷ 0xd9 ∷ 0xe8 ∷ 0x70 ∷ []

abbrev pub pump_sell_disc : List ℕ
pump_sell_disc = 0x33 ∷ 0xe6 ∷ 0x85 ∷ 0xa4 ∷ 0x01 ∷ 0x7f ∷ 0x83 ∷ 0xad ∷ []

abbrev pub dlmm_swap2_disc : List ℕ
dlmm_swap2_disc = 0x41 ∷ 0x4b ∷ 0x3f ∷ 0x4c ∷ 0xeb ∷ 0x5b ∷ 0x5b ∷ 0x88 ∷ []

abbrev pub cpmm_swap_disc : List ℕ
cpmm_swap_disc = 0xf8 ∷ 0xc6 ∷ 0x9e ∷ 0x91 ∷ 0xe1 ∷ 0x75 ∷ 0x87 ∷ 0xc8 ∷ []

abbrev pub whirlpool_swap_disc : List ℕ
whirlpool_swap_disc = 0xf8 ∷ 0xc6 ∷ 0x9e ∷ 0x91 ∷ 0xe1 ∷ 0x75 ∷ 0x87 ∷ 0xc8 ∷ []

abbrev pub route_disc : List ℕ
route_disc = 0x5f ∷ 0x0f ∷ 0x91 ∷ 0x02 ∷ 0x9a ∷ 0x03 ∷ 0x4c ∷ 0xc3 ∷ []
