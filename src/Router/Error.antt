-- ===== src/Router/Error.antt =====
-- programs/arbitrage/src/error.rs: the program's error codes.
use solana_atomic_arbitrage.Base.{ℕ}
use solana_atomic_arbitrage.Router.Types.{ProgramError, custom}

abbrev pub arb_insufficient_profit : ℕ
arb_insufficient_profit = 6000

abbrev pub arb_residual_meme : ℕ
arb_residual_meme = 6001

abbrev pub arb_zero_amount : ℕ
arb_zero_amount = 6002

abbrev pub arb_bad_discriminator : ℕ
arb_bad_discriminator = 6003

abbrev pub arb_bad_account_count : ℕ
arb_bad_account_count = 6004

abbrev pub arb_bad_pda : ℕ
arb_bad_pda = 6005

abbrev pub arb_bad_program : ℕ
arb_bad_program = 6006

abbrev pub arb_bad_mint : ℕ
arb_bad_mint = 6007

abbrev pub arb_negative_net : ℕ
arb_negative_net = 6008

abbrev pub arb_pre_swap_unprofitable : ℕ
arb_pre_swap_unprofitable = 6009

abbrev pub arb_price_math_overflow : ℕ
arb_price_math_overflow = 6010

abbrev pub arb_empty_bins : ℕ
arb_empty_bins = 6011

abbrev pub arb_pump_cpi_failed : ℕ
arb_pump_cpi_failed = 6100

abbrev pub arb_dlmm_cpi_failed : ℕ
arb_dlmm_cpi_failed = 6200

abbrev pub arb_cpmm_cpi_failed : ℕ
arb_cpmm_cpi_failed = 6300

abbrev pub arb_whirlpool_cpi_failed : ℕ
arb_whirlpool_cpi_failed = 6400

abbrev pub arb_unknown_dex_pair : ℕ
arb_unknown_dex_pair = 6500

abbrev pub arb_err : ℕ → ProgramError
arb_err code = custom code
