-- ===== src/Wire/Fields.antt =====
-- The names of the members of the wire structs, told apart by numbers.
use itch_exchange.Prelude.{ℕ}

abbrev pub message_type : ℕ
message_type = 0

abbrev pub stock_locate : ℕ
stock_locate = 1

abbrev pub tracking_number : ℕ
tracking_number = 2

abbrev pub timestamp : ℕ
timestamp = 3

abbrev pub event_code : ℕ
event_code = 4

abbrev pub stock : ℕ
stock = 5

abbrev pub market_category : ℕ
market_category = 6

abbrev pub financial_status_indicator : ℕ
financial_status_indicator = 7

abbrev pub round_lot_size : ℕ
round_lot_size = 8

abbrev pub round_lots_only : ℕ
round_lots_only = 9

abbrev pub issue_classification : ℕ
issue_classification = 10

abbrev pub issue_sub_type : ℕ
issue_sub_type = 11

abbrev pub authenticity : ℕ
authenticity = 12

abbrev pub short_sale_threshold_indicator : ℕ
short_sale_threshold_indicator = 13

abbrev pub ipo_flag : ℕ
ipo_flag = 14

abbrev pub luld_reference_price_tier : ℕ
luld_reference_price_tier = 15

abbrev pub etp_flag : ℕ
etp_flag = 16

abbrev pub etp_leverage_factor : ℕ
etp_leverage_factor = 17

abbrev pub inverse_indicator : ℕ
inverse_indicator = 18

abbrev pub trading_state : ℕ
trading_state = 19

abbrev pub reserved : ℕ
reserved = 20

abbrev pub reason : ℕ
reason = 21

abbrev pub reg_sho_action : ℕ
reg_sho_action = 22

abbrev pub mpid : ℕ
mpid = 23

abbrev pub primary_market : ℕ
primary_market = 24

abbrev pub market_maker_mode : ℕ
market_maker_mode = 25

abbrev pub market_participant_state : ℕ
market_participant_state = 26

abbrev pub level_1 : ℕ
level_1 = 27

abbrev pub level_2 : ℕ
level_2 = 28

abbrev pub level_3 : ℕ
level_3 = 29

abbrev pub breached_level : ℕ
breached_level = 30

abbrev pub ipo_quotation_release_time : ℕ
ipo_quotation_release_time = 31

abbrev pub ipo_quotation_release_qualifier : ℕ
ipo_quotation_release_qualifier = 32

abbrev pub ipo_price : ℕ
ipo_price = 33

abbrev pub auction_collar_reference_price : ℕ
auction_collar_reference_price = 34

abbrev pub upper_auction_collar_price : ℕ
upper_auction_collar_price = 35

abbrev pub lower_auction_collar_price : ℕ
lower_auction_collar_price = 36

abbrev pub auction_collar_extension : ℕ
auction_collar_extension = 37

abbrev pub market_code : ℕ
market_code = 38

abbrev pub operational_halt_action : ℕ
operational_halt_action = 39

abbrev pub order_reference_number : ℕ
order_reference_number = 40

abbrev pub buy_sell_indicator : ℕ
buy_sell_indicator = 41

abbrev pub shares : ℕ
shares = 42

abbrev pub price : ℕ
price = 43

abbrev pub attribution : ℕ
attribution = 44

abbrev pub executed_shares : ℕ
executed_shares = 45

abbrev pub match_number : ℕ
match_number = 46

abbrev pub printable : ℕ
printable = 47

abbrev pub execution_price : ℕ
execution_price = 48

abbrev pub cancelled_shares : ℕ
cancelled_shares = 49

abbrev pub original_order_reference_number : ℕ
original_order_reference_number = 50

abbrev pub new_order_reference_number : ℕ
new_order_reference_number = 51

abbrev pub cross_price : ℕ
cross_price = 52

abbrev pub cross_type : ℕ
cross_type = 53

abbrev pub paired_shares : ℕ
paired_shares = 54

abbrev pub imbalance_shares : ℕ
imbalance_shares = 55

abbrev pub imbalance_direction : ℕ
imbalance_direction = 56

abbrev pub far_price : ℕ
far_price = 57

abbrev pub near_price : ℕ
near_price = 58

abbrev pub current_reference_price : ℕ
current_reference_price = 59

abbrev pub price_variation_indicator : ℕ
price_variation_indicator = 60

abbrev pub interest_flag : ℕ
interest_flag = 61

abbrev pub open_eligibility_status : ℕ
open_eligibility_status = 62

abbrev pub minimum_allowable_price : ℕ
minimum_allowable_price = 63

abbrev pub maximum_allowable_price : ℕ
maximum_allowable_price = 64

abbrev pub near_execution_price : ℕ
near_execution_price = 65

abbrev pub near_execution_time : ℕ
near_execution_time = 66

abbrev pub lower_price_range_collar : ℕ
lower_price_range_collar = 67

abbrev pub upper_price_range_collar : ℕ
upper_price_range_collar = 68
