-- ===== src/Engine/Mappings/Plaid.antt =====
-- pfm/app/engine/mappings.py: the categories of Plaid's detailed names.
use thryve_financial.Base.{String, [], ◌∷◌, Dict}

abbrev pub plaid_detailed_to_internal : Dict (String × String)
plaid_detailed_to_internal =
    ("FOOD_AND_DRINK_RESTAURANT", ("food_and_dining", "restaurants"))
    ∷ ("FOOD_AND_DRINK_FAST_FOOD", ("food_and_dining", "fast_food"))
    ∷ ("FOOD_AND_DRINK_GROCERIES", ("food_and_dining", "groceries"))
    ∷ ("FOOD_AND_DRINK_COFFEE", ("food_and_dining", "coffee_shops"))
    ∷ ("FOOD_AND_DRINK_VENDING_MACHINES", ("food_and_dining", "vending_and_snacks"))
    ∷ ("FOOD_AND_DRINK_BEER_WINE_AND_LIQUOR", ("food_and_dining", "alcohol_and_bars"))
    ∷ ("FOOD_AND_DRINK_OTHER_FOOD_AND_DRINK", ("food_and_dining", "restaurants"))
    ∷ ("GENERAL_MERCHANDISE_SUPERSTORES", ("shopping", "general"))
    ∷ ("GENERAL_MERCHANDISE_ONLINE_MARKETPLACES", ("shopping", "general"))
    ∷ ("GENERAL_MERCHANDISE_ELECTRONICS", ("shopping", "electronics"))
    ∷ ("GENERAL_MERCHANDISE_CLOTHING_AND_ACCESSORIES", ("shopping", "clothing"))
    ∷ ("GENERAL_MERCHANDISE_DISCOUNT_STORES", ("shopping", "general"))
    ∷ ("GENERAL_MERCHANDISE_DEPARTMENT_STORES", ("shopping", "general"))
    ∷ ("GENERAL_MERCHANDISE_GIFTS_AND_NOVELTIES", ("shopping", "general"))
    ∷ ("GENERAL_MERCHANDISE_SPORTING_GOODS", ("shopping", "sporting_goods"))
    ∷ ("GENERAL_MERCHANDISE_BOOKSTORES_AND_NEWSSTANDS", ("shopping", "general"))
    ∷ ("GENERAL_MERCHANDISE_OFFICE_SUPPLIES", ("shopping", "general"))
    ∷ ("GENERAL_MERCHANDISE_PET_SUPPLIES", ("shopping", "pet_supplies"))
    ∷ ("GENERAL_MERCHANDISE_TOBACCO_AND_VAPE", ("shopping", "general"))
    ∷ ("GENERAL_MERCHANDISE_OTHER_GENERAL_MERCHANDISE", ("shopping", "general"))
    ∷ ("GENERAL_MERCHANDISE_CONVENIENCE_STORES", ("food_and_dining", "convenience_stores"))
    ∷ ("TRANSPORTATION_GAS", ("transportation", "gas"))
    ∷ ("TRANSPORTATION_TAXIS_AND_RIDE_SHARES", ("transportation", "rideshare"))
    ∷ ("TRANSPORTATION_PUBLIC_TRANSIT", ("transportation", "public_transit"))
    ∷ ("TRANSPORTATION_PARKING", ("transportation", "parking_and_tolls"))
    ∷ ("TRANSPORTATION_TOLLS", ("transportation", "parking_and_tolls"))
    ∷ ("TRANSPORTATION_BIKES_AND_SCOOTERS", ("transportation", "public_transit"))
    ∷ ("TRANSPORTATION_OTHER_TRANSPORTATION", ("transportation", "public_transit"))
    ∷ ("RENT_AND_UTILITIES_RENT", ("bills", "rent_mortgage"))
    ∷ ("RENT_AND_UTILITIES_GAS_AND_ELECTRICITY", ("bills", "electricity_and_gas"))
    ∷ ("RENT_AND_UTILITIES_WATER", ("bills", "water_and_sewer"))
    ∷ ("RENT_AND_UTILITIES_INTERNET_AND_CABLE", ("bills", "internet_and_phone"))
    ∷ ("RENT_AND_UTILITIES_TELEPHONE", ("bills", "internet_and_phone"))
    ∷ ("RENT_AND_UTILITIES_SEWAGE_AND_WASTE_MANAGEMENT", ("bills", "water_and_sewer"))
    ∷ ("RENT_AND_UTILITIES_OTHER_UTILITIES", ("bills", "other_bills"))
    ∷ ("ENTERTAINMENT_TV_AND_MOVIES", ("entertainment", "streaming"))
    ∷ ("ENTERTAINMENT_VIDEO_GAMES", ("entertainment", "gaming"))
    ∷ ("ENTERTAINMENT_MUSIC_AND_AUDIO", ("entertainment", "streaming"))
    ∷ (
      "ENTERTAINMENT_SPORTING_EVENTS_AMUSEMENT_PARKS_AND_MUSEUMS",
      ("entertainment", "events_and_activities"),
    )
    ∷ ("ENTERTAINMENT_OTHER_ENTERTAINMENT", ("entertainment", "other_entertainment"))
    ∷ ("ENTERTAINMENT_CASINOS_AND_GAMBLING", ("gambling", "gambling"))
    ∷ ("MEDICAL_PHARMACIES_AND_SUPPLEMENTS", ("health", "pharmacy"))
    ∷ ("MEDICAL_PRIMARY_CARE", ("health", "doctor_and_dental"))
    ∷ ("MEDICAL_DENTAL_CARE", ("health", "doctor_and_dental"))
    ∷ ("MEDICAL_EYE_CARE", ("health", "vision"))
    ∷ ("MEDICAL_VETERINARY_SERVICES", ("health", "doctor_and_dental"))
    ∷ ("MEDICAL_NURSING_CARE", ("health", "doctor_and_dental"))
    ∷ ("MEDICAL_OTHER_MEDICAL", ("health", "doctor_and_dental"))
    ∷ ("PERSONAL_CARE_GYMS_AND_FITNESS_CENTERS", ("health", "gym_and_fitness"))
    ∷ ("PERSONAL_CARE_HAIR_AND_BEAUTY", ("personal_care", "hair_and_beauty"))
    ∷ ("PERSONAL_CARE_LAUNDRY_AND_DRY_CLEANING", ("personal_care", "laundry_and_dry_cleaning"))
    ∷ ("PERSONAL_CARE_OTHER_PERSONAL_CARE", ("personal_care", "hair_and_beauty"))
    ∷ ("TRAVEL_LODGING", ("travel", "hotels_and_lodging"))
    ∷ ("TRAVEL_FLIGHTS", ("travel", "flights"))
    ∷ ("TRAVEL_RENTAL_CARS", ("travel", "rental_cars"))
    ∷ ("TRAVEL_OTHER_TRAVEL", ("travel", "other_travel"))
    ∷ ("GENERAL_SERVICES_EDUCATION", ("education", "education"))
    ∷ ("GENERAL_SERVICES_INSURANCE", ("bills", "insurance"))
    ∷ ("GENERAL_SERVICES_CONSULTING_AND_LEGAL", ("bills", "other_bills"))
    ∷ ("GENERAL_SERVICES_STORAGE", ("bills", "other_bills"))
    ∷ ("GENERAL_SERVICES_OTHER_GENERAL_SERVICES", ("bills", "other_bills"))
    ∷ ("GENERAL_SERVICES_CHILDCARE", ("bills", "other_bills"))
    ∷ ("GENERAL_SERVICES_AUTOMOTIVE", ("transportation", "auto_maintenance"))
    ∷ ("GENERAL_SERVICES_POSTAGE_AND_SHIPPING", ("shopping", "general"))
    ∷ ("HOME_IMPROVEMENT_HARDWARE", ("shopping", "home_and_furniture"))
    ∷ ("HOME_IMPROVEMENT_FURNITURE", ("shopping", "home_and_furniture"))
    ∷ ("HOME_IMPROVEMENT_REPAIR_AND_MAINTENANCE", ("shopping", "home_and_furniture"))
    ∷ ("HOME_IMPROVEMENT_OTHER_HOME_IMPROVEMENT", ("shopping", "home_and_furniture"))
    ∷ ("HOME_IMPROVEMENT_SECURITY", ("bills", "insurance"))
    ∷ ("GENERAL_SERVICES_ACCOUNTING_AND_FINANCIAL_PLANNING", ("bills", "other_bills"))
    ∷ ("LOAN_PAYMENTS_CREDIT_CARD_PAYMENT", ("debt_and_loans", "credit_card_payment"))
    ∷ ("LOAN_PAYMENTS_STUDENT_LOAN_PAYMENT", ("debt_and_loans", "student_loan"))
    ∷ ("LOAN_PAYMENTS_CAR_PAYMENT", ("debt_and_loans", "auto_loan"))
    ∷ ("LOAN_PAYMENTS_PERSONAL_LOAN_PAYMENT", ("debt_and_loans", "personal_loan"))
    ∷ ("LOAN_PAYMENTS_MORTGAGE_PAYMENT", ("debt_and_loans", "mortgage_payment"))
    ∷ ("LOAN_PAYMENTS_OTHER_PAYMENT", ("debt_and_loans", "personal_loan"))
    ∷ ("TRANSFER_OUT_ACCOUNT_TRANSFER", ("transfers", "internal"))
    ∷ ("TRANSFER_OUT_SAVINGS", ("transfers", "to_from_savings"))
    ∷ ("TRANSFER_OUT_WITHDRAWAL", ("transfers", "atm_withdrawal"))
    ∷ ("TRANSFER_OUT_INVESTMENT_AND_RETIREMENT_FUNDS", ("transfers", "investment"))
    ∷ ("TRANSFER_OUT_OTHER_TRANSFER_OUT", ("transfers", "other_transfer"))
    ∷ ("TRANSFER_IN_ACCOUNT_TRANSFER", ("transfers", "internal"))
    ∷ ("TRANSFER_IN_SAVINGS", ("transfers", "to_from_savings"))
    ∷ ("TRANSFER_IN_DEPOSIT", ("transfers", "other_transfer"))
    ∷ ("TRANSFER_IN_CASH_ADVANCES_AND_LOANS", ("debt_and_loans", "cash_advance_ewa"))
    ∷ ("TRANSFER_IN_INVESTMENT_AND_RETIREMENT_FUNDS", ("transfers", "investment"))
    ∷ ("TRANSFER_IN_OTHER_TRANSFER_IN", ("transfers", "other_transfer"))
    ∷ ("INCOME_WAGES", ("income", "paycheck"))
    ∷ ("INCOME_INTEREST_EARNED", ("income", "interest_and_dividends"))
    ∷ ("INCOME_DIVIDENDS", ("income", "interest_and_dividends"))
    ∷ ("INCOME_TAX_REFUND", ("income", "refunds_and_cashback"))
    ∷ ("INCOME_OTHER_INCOME", ("income", "side_income_gig"))
    ∷ ("INCOME_UNEMPLOYMENT", ("income", "paycheck"))
    ∷ ("INCOME_RETIREMENT_PENSION", ("income", "paycheck"))
    ∷ ("BANK_FEES_ATM_FEES", ("other", "fees"))
    ∷ ("BANK_FEES_OVERDRAFT_FEES", ("other", "fees"))
    ∷ ("BANK_FEES_INSUFFICIENT_FUNDS", ("other", "fees"))
    ∷ ("BANK_FEES_FOREIGN_TRANSACTION_FEES", ("other", "fees"))
    ∷ ("BANK_FEES_OTHER_BANK_FEES", ("other", "fees"))
    ∷ ("BANK_FEES_INTEREST_CHARGE", ("other", "fees"))
    ∷ ("GOVERNMENT_AND_NON_PROFIT_TAX_PAYMENT", ("other", "taxes"))
    ∷ ("GOVERNMENT_AND_NON_PROFIT_DONATIONS", ("other", "donations"))
    ∷ ("GOVERNMENT_AND_NON_PROFIT_GOVERNMENT_DEPARTMENTS_AND_AGENCIES", ("other", "taxes"))
    ∷ ("GOVERNMENT_AND_NON_PROFIT_OTHER_GOVERNMENT_AND_NON_PROFIT", ("other", "taxes"))
    ∷ ("OTHER", ("other", "uncategorized"))
    ∷ ("Other", ("other", "uncategorized"))
    ∷ []
