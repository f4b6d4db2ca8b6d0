-- ===== src/Engine/Mappings/Pave.antt =====
-- pfm/app/engine/mappings.py: the categories of Pave's tags.
use thryve_financial.Base.{String, List, [], ◌∷◌, Dict}

abbrev pub pave_tag_to_internal : Dict (String × String)
pave_tag_to_internal =
    ("Restaurant", ("food_and_dining", "restaurants"))
    ∷ ("Grocery", ("food_and_dining", "groceries"))
    ∷ ("Cafe", ("food_and_dining", "coffee_shops"))
    ∷ ("Food Delivery", ("food_and_dining", "food_delivery"))
    ∷ ("Liquor Store", ("food_and_dining", "alcohol_and_bars"))
    ∷ ("Convenience Store", ("food_and_dining", "convenience_stores"))
    ∷ ("Vending Machine", ("food_and_dining", "vending_and_snacks"))
    ∷ ("Retail", ("shopping", "general"))
    ∷ ("Marketplace", ("shopping", "general"))
    ∷ ("Shipping", ("shopping", "general"))
    ∷ ("Pet", ("shopping", "pet_supplies"))
    ∷ ("Gas Station", ("transportation", "gas"))
    ∷ ("Transportation", ("transportation", "public_transit"))
    ∷ ("Taxi", ("transportation", "rideshare"))
    ∷ ("Parking", ("transportation", "parking_and_tolls"))
    ∷ ("Toll", ("transportation", "parking_and_tolls"))
    ∷ ("Auto", ("transportation", "auto_maintenance"))
    ∷ ("Utility", ("bills", "other_bills"))
    ∷ ("Electric", ("bills", "electricity_and_gas"))
    ∷ ("Gas", ("bills", "electricity_and_gas"))
    ∷ ("Telecom", ("bills", "internet_and_phone"))
    ∷ ("Insurance", ("bills", "insurance"))
    ∷ ("Life Insurance", ("bills", "insurance"))
    ∷ ("Rent", ("bills", "rent_mortgage"))
    ∷ ("Bill", ("bills", "other_bills"))
    ∷ ("Housing", ("bills", "rent_mortgage"))
    ∷ ("SaaS", ("bills", "subscriptions"))
    ∷ ("Streaming", ("entertainment", "streaming"))
    ∷ ("Entertainment", ("entertainment", "other_entertainment"))
    ∷ ("Gambling", ("gambling", "gambling"))
    ∷ ("Pharmacy", ("health", "pharmacy"))
    ∷ ("Health", ("health", "doctor_and_dental"))
    ∷ ("Health Insurance", ("health", "health_insurance"))
    ∷ ("Gym", ("health", "gym_and_fitness"))
    ∷ ("Personal Care", ("personal_care", "hair_and_beauty"))
    ∷ ("Air Travel", ("travel", "flights"))
    ∷ ("Hotel", ("travel", "hotels_and_lodging"))
    ∷ ("Lodging", ("travel", "hotels_and_lodging"))
    ∷ ("Car Rental", ("travel", "rental_cars"))
    ∷ ("Travel", ("travel", "other_travel"))
    ∷ ("Tuition", ("education", "education"))
    ∷ ("Transfer", ("transfers", "internal"))
    ∷ ("Transfer to Savings", ("transfers", "to_from_savings"))
    ∷ ("Transfer From Savings", ("transfers", "to_from_savings"))
    ∷ ("Transfer to Checking", ("transfers", "internal"))
    ∷ ("Transfer From Checking", ("transfers", "internal"))
    ∷ ("Round Up Transfer", ("transfers", "to_from_savings"))
    ∷ ("Overdraft Protection Transfer", ("transfers", "internal"))
    ∷ ("Payment App", ("transfers", "peer_to_peer"))
    ∷ ("P2P Transfer", ("transfers", "peer_to_peer"))
    ∷ ("Remittance App", ("transfers", "peer_to_peer"))
    ∷ ("International Transfer", ("transfers", "other_transfer"))
    ∷ ("Wire Transfer", ("transfers", "other_transfer"))
    ∷ ("ACH", ("transfers", "other_transfer"))
    ∷ ("ATM Withdrawal", ("transfers", "atm_withdrawal"))
    ∷ ("ATM Deposit", ("transfers", "other_transfer"))
    ∷ ("Branch Withdrawal", ("transfers", "atm_withdrawal"))
    ∷ ("Branch Deposit", ("transfers", "other_transfer"))
    ∷ ("Other Deposit", ("transfers", "other_transfer"))
    ∷ ("Other Withdrawal", ("transfers", "other_transfer"))
    ∷ ("Check", ("transfers", "other_transfer"))
    ∷ ("Investment", ("transfers", "investment"))
    ∷ ("Crypto", ("transfers", "investment"))
    ∷ ("Loan", ("debt_and_loans", "personal_loan"))
    ∷ ("Student Loan", ("debt_and_loans", "student_loan"))
    ∷ ("Auto Loan", ("debt_and_loans", "auto_loan"))
    ∷ ("Mortgage", ("debt_and_loans", "mortgage_payment"))
    ∷ ("Personal Loan", ("debt_and_loans", "personal_loan"))
    ∷ ("Title Loan", ("debt_and_loans", "personal_loan"))
    ∷ ("Credit Card Payment", ("debt_and_loans", "credit_card_payment"))
    ∷ ("BNPL", ("debt_and_loans", "personal_loan"))
    ∷ ("Lease to Own", ("debt_and_loans", "personal_loan"))
    ∷ ("Cash Advance", ("debt_and_loans", "cash_advance_ewa"))
    ∷ ("Earned Wage Access", ("debt_and_loans", "cash_advance_ewa"))
    ∷ ("Credit Builder", ("debt_and_loans", "cash_advance_ewa"))
    ∷ ("Debt Collection", ("debt_and_loans", "personal_loan"))
    ∷ ("Debt Relief", ("debt_and_loans", "personal_loan"))
    ∷ ("Payroll", ("income", "paycheck"))
    ∷ ("Direct Deposit", ("income", "paycheck"))
    ∷ ("Gig Income", ("income", "side_income_gig"))
    ∷ ("Creator Income", ("income", "side_income_gig"))
    ∷ ("E-Commerce Revenue", ("income", "side_income_gig"))
    ∷ ("Interest", ("income", "interest_and_dividends"))
    ∷ ("Dividend", ("income", "interest_and_dividends"))
    ∷ ("Pension", ("income", "paycheck"))
    ∷ ("Benefits", ("income", "paycheck"))
    ∷ ("Reimbursement", ("income", "refunds_and_cashback"))
    ∷ ("Cashback", ("income", "refunds_and_cashback"))
    ∷ ("Rewards", ("income", "refunds_and_cashback"))
    ∷ ("Refund", ("income", "refunds_and_cashback"))
    ∷ ("ATM Fee", ("other", "fees"))
    ∷ ("NSF Fee", ("other", "fees"))
    ∷ ("Overdraft Fee", ("other", "fees"))
    ∷ ("Account Service Fee", ("other", "fees"))
    ∷ ("Money Transfer Fee", ("other", "fees"))
    ∷ ("Foreign Exchange Fee", ("other", "fees"))
    ∷ ("Tax", ("other", "taxes"))
    ∷ ("Donation", ("other", "donations"))
    ∷ ("Government Services", ("other", "taxes"))
    ∷ ("Professional Services", ("bills", "other_bills"))
    ∷ ("Miscellaneous", ("other", "uncategorized"))
    ∷ ("Subscription", ("bills", "subscriptions"))
    ∷ ("Digital Services", ("bills", "subscriptions"))
    ∷ ("Banking", ("transfers", "internal"))
    ∷ []

abbrev pub pave_generic_tags : List String
pave_generic_tags = "Miscellaneous" ∷ "Retail" ∷ "Subscription" ∷ "ACH" ∷ []
