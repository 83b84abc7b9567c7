-- ===== src/Router/Constants/Offsets.antt =====
-- programs/arbitrage/src/constants.rs: the offsets of the instruction data and of the accounts.
use solana_atomic_arbitrage.Base.{ℕ}

abbrev pub off_amount_in : ℕ
off_amount_in = 8

abbrev pub off_min_profit : ℕ
off_min_profit = 16

abbrev pub off_min_intermediate : ℕ
off_min_intermediate = 24

abbrev pub off_track_volume : ℕ
off_track_volume = 32

abbrev pub off_dlmm_sol_is_x : ℕ
off_dlmm_sol_is_x = 33

abbrev pub off_pump_remaining : ℕ
off_pump_remaining = 34

abbrev pub off_dlmm_bin_array_count : ℕ
off_dlmm_bin_array_count = 35

abbrev pub off_buy_remaining : ℕ
off_buy_remaining = 34

abbrev pub off_sell_remaining : ℕ
off_sell_remaining = 35

abbrev pub ix_data_len : ℕ
ix_data_len = 36

abbrev pub user_idx : ℕ
user_idx = 0

abbrev pub user_sol_ata_idx : ℕ
user_sol_ata_idx = 1

abbrev pub user_meme_ata_idx : ℕ
user_meme_ata_idx = 2

abbrev pub shared_fixed_len : ℕ
shared_fixed_len = 3

abbrev pub pump_buy_pool : ℕ
pump_buy_pool = 0

abbrev pub pump_buy_user : ℕ
pump_buy_user = 1

abbrev pub pump_buy_global_config : ℕ
pump_buy_global_config = 2

abbrev pub pump_buy_base_mint : ℕ
pump_buy_base_mint = 3

abbrev pub pump_buy_quote_mint : ℕ
pump_buy_quote_mint = 4

abbrev pub pump_buy_user_base_ata : ℕ
pump_buy_user_base_ata = 5

abbrev pub pump_buy_user_quote_ata : ℕ
pump_buy_user_quote_ata = 6

abbrev pub pump_buy_pool_base_ata : ℕ
pump_buy_pool_base_ata = 7

abbrev pub pump_buy_pool_quote_ata : ℕ
pump_buy_pool_quote_ata = 8

abbrev pub pump_buy_protocol_fee_recipient : ℕ
pump_buy_protocol_fee_recipient = 9

abbrev pub pump_buy_protocol_fee_ata : ℕ
pump_buy_protocol_fee_ata = 10

abbrev pub pump_buy_base_token_program : ℕ
pump_buy_base_token_program = 11

abbrev pub pump_buy_quote_token_program : ℕ
pump_buy_quote_token_program = 12

abbrev pub pump_buy_system_program : ℕ
pump_buy_system_program = 13

abbrev pub pump_buy_ata_program : ℕ
pump_buy_ata_program = 14

abbrev pub pump_buy_event_authority : ℕ
pump_buy_event_authority = 15

abbrev pub pump_buy_program : ℕ
pump_buy_program = 16

abbrev pub pump_buy_coin_creator_vault_ata : ℕ
pump_buy_coin_creator_vault_ata = 17

abbrev pub pump_buy_coin_creator_vault_auth : ℕ
pump_buy_coin_creator_vault_auth = 18

abbrev pub pump_buy_global_vol_accum : ℕ
pump_buy_global_vol_accum = 19

abbrev pub pump_buy_user_vol_accum : ℕ
pump_buy_user_vol_accum = 20

abbrev pub pump_buy_fee_config : ℕ
pump_buy_fee_config = 21

abbrev pub pump_buy_fee_program : ℕ
pump_buy_fee_program = 22

abbrev pub pump_buy_fixed_len : ℕ
pump_buy_fixed_len = 23

abbrev pub dlmm_program_rel : ℕ
dlmm_program_rel = 0

abbrev pub dlmm_lb_pair_rel : ℕ
dlmm_lb_pair_rel = 1

abbrev pub dlmm_bitmap_rel : ℕ
dlmm_bitmap_rel = 2

abbrev pub dlmm_reserve_x_rel : ℕ
dlmm_reserve_x_rel = 3

abbrev pub dlmm_reserve_y_rel : ℕ
dlmm_reserve_y_rel = 4

abbrev pub dlmm_oracle_rel : ℕ
dlmm_oracle_rel = 5

abbrev pub dlmm_host_fee_rel : ℕ
dlmm_host_fee_rel = 6

abbrev pub dlmm_memo_rel : ℕ
dlmm_memo_rel = 7

abbrev pub dlmm_event_auth_rel : ℕ
dlmm_event_auth_rel = 8

abbrev pub dlmm_bin_arrays_start_rel : ℕ
dlmm_bin_arrays_start_rel = 9

abbrev pub dlmm_fixed_len : ℕ
dlmm_fixed_len = 9

abbrev pub pump_sell_pool : ℕ
pump_sell_pool = 0

abbrev pub pump_sell_user : ℕ
pump_sell_user = 1

abbrev pub pump_sell_global_config : ℕ
pump_sell_global_config = 2

abbrev pub pump_sell_base_mint : ℕ
pump_sell_base_mint = 3

abbrev pub pump_sell_quote_mint : ℕ
pump_sell_quote_mint = 4

abbrev pub pump_sell_user_base_ata : ℕ
pump_sell_user_base_ata = 5

abbrev pub pump_sell_user_quote_ata : ℕ
pump_sell_user_quote_ata = 6

abbrev pub pump_sell_pool_base_ata : ℕ
pump_sell_pool_base_ata = 7

abbrev pub pump_sell_pool_quote_ata : ℕ
pump_sell_pool_quote_ata = 8

abbrev pub pump_sell_protocol_fee_recipient : ℕ
pump_sell_protocol_fee_recipient = 9

abbrev pub pump_sell_protocol_fee_ata : ℕ
pump_sell_protocol_fee_ata = 10

abbrev pub pump_sell_base_token_program : ℕ
pump_sell_base_token_program = 11

abbrev pub pump_sell_quote_token_program : ℕ
pump_sell_quote_token_program = 12

abbrev pub pump_sell_system_program : ℕ
pump_sell_system_program = 13

abbrev pub pump_sell_ata_program : ℕ
pump_sell_ata_program = 14

abbrev pub pump_sell_event_authority : ℕ
pump_sell_event_authority = 15

abbrev pub pump_sell_program : ℕ
pump_sell_program = 16

abbrev pub pump_sell_coin_creator_vault_ata : ℕ
pump_sell_coin_creator_vault_ata = 17

abbrev pub pump_sell_coin_creator_vault_auth : ℕ
pump_sell_coin_creator_vault_auth = 18

abbrev pub pump_sell_fee_config : ℕ
pump_sell_fee_config = 19

abbrev pub pump_sell_fee_program : ℕ
pump_sell_fee_program = 20

abbrev pub pump_sell_fixed_len : ℕ
pump_sell_fixed_len = 21
