-- ===== src/Engine/Taxonomy/Categories.antt =====
-- pfm/app/engine/taxonomy.py: the categories.
use thryve_financial.Base.{String, List, [], ◌∷◌}
use thryve_financial.Engine.Taxonomy.{SubCategory, PrimaryCategory, spend, non_spend}

abbrev sub : String → String → List String → SubCategory
sub id name examples = record { id = id; name = name; examples = examples }

abbrev pub food_and_dining : PrimaryCategory
food_and_dining = record {
  id = "food_and_dining";
  name = "Food & Dining";
  spend_type = spend;
  sub_categories =
      sub "groceries" "Groceries" ("Kroger" ∷ "Aldi" ∷ "Safeway" ∷ "Publix" ∷ "H-E-B" ∷ [])
      ∷ sub "restaurants" "Restaurants" ("Olive Garden" ∷ "Applebee's" ∷ "local restaurants" ∷ [])
      ∷ sub "fast_food" "Fast Food" ("McDonald's" ∷ "Chick-fil-A" ∷ "Taco Bell" ∷ "Wendy's" ∷ [])
      ∷ sub "coffee_shops" "Coffee Shops" ("Starbucks" ∷ "Dunkin'" ∷ "Peet's" ∷ [])
      ∷ sub "food_delivery" "Food Delivery" ("DoorDash" ∷ "Uber Eats" ∷ "Grubhub" ∷ [])
      ∷ sub "alcohol_and_bars" "Alcohol & Bars" ("liquor stores" ∷ "bars" ∷ "breweries" ∷ [])
      ∷ sub "convenience_stores" "Convenience Stores" ("7-Eleven" ∷ "Casey's" ∷ "Wawa" ∷ [])
      ∷ sub "vending_and_snacks" "Vending & Snacks" ("vending machines" ∷ "snack shops" ∷ [])
      ∷ [];
}

abbrev pub shopping : PrimaryCategory
shopping = record {
  id = "shopping";
  name = "Shopping";
  spend_type = spend;
  sub_categories =
      sub "general" "General" ("Walmart" ∷ "Amazon" ∷ "Target" ∷ "Costco" ∷ [])
      ∷ sub "clothing" "Clothing" ("Nike" ∷ "H&M" ∷ "Zara" ∷ "Old Navy" ∷ [])
      ∷ sub "electronics" "Electronics" ("Best Buy" ∷ "Apple Store" ∷ "Newegg" ∷ [])
      ∷ sub "home_and_furniture" "Home & Furniture" ("Home Depot" ∷ "Lowe's" ∷ "IKEA" ∷ [])
      ∷ sub "pet_supplies" "Pet Supplies" ("PetSmart" ∷ "Petco" ∷ "Chewy" ∷ [])
      ∷ sub "sporting_goods" "Sporting Goods" ("Dick's" ∷ "REI" ∷ "Academy Sports" ∷ [])
      ∷ [];
}

abbrev pub transportation : PrimaryCategory
transportation = record {
  id = "transportation";
  name = "Transportation";
  spend_type = spend;
  sub_categories =
      sub "gas" "Gas" ("Shell" ∷ "Chevron" ∷ "BP" ∷ "ExxonMobil" ∷ "Circle K" ∷ [])
      ∷ sub "rideshare" "Rideshare" ("Uber" ∷ "Lyft" ∷ [])
      ∷ sub "public_transit" "Public Transit" ("MTA" ∷ "BART" ∷ "CTA" ∷ "Metro" ∷ [])
      ∷ sub "parking_and_tolls" "Parking & Tolls" ("ParkMobile" ∷ "E-ZPass" ∷ [])
      ∷ sub "auto_maintenance" "Auto Maintenance" ("AutoZone" ∷ "Jiffy Lube" ∷ "Midas" ∷ [])
      ∷ [];
}

abbrev pub bills : PrimaryCategory
bills = record {
  id = "bills";
  name = "Bills";
  spend_type = spend;
  sub_categories =
      sub "rent_mortgage" "Rent / Mortgage" ("landlord" ∷ "mortgage company" ∷ [])
      ∷ sub "electricity_and_gas" "Electricity & Gas" ("electric company" ∷ "gas utility" ∷ [])
      ∷ sub "water_and_sewer" "Water & Sewer" ("water utility" ∷ [])
      ∷ sub "internet_and_phone" "Internet & Phone"
          ("AT&T" ∷ "Verizon" ∷ "T-Mobile" ∷ "Comcast" ∷ [])
      ∷ sub "insurance" "Insurance" ("Progressive" ∷ "Geico" ∷ "State Farm" ∷ "Allstate" ∷ [])
      ∷ sub "subscriptions" "Subscriptions" ("Amazon Prime" ∷ "Google One" ∷ "iCloud" ∷ [])
      ∷ sub "other_bills" "Other Bills" ("childcare" ∷ "storage" ∷ "HOA" ∷ [])
      ∷ [];
}

abbrev pub entertainment : PrimaryCategory
entertainment = record {
  id = "entertainment";
  name = "Entertainment";
  spend_type = spend;
  sub_categories =
      sub "streaming" "Streaming" ("Netflix" ∷ "Spotify" ∷ "Disney+" ∷ "Hulu" ∷ "YouTube" ∷ [])
      ∷ sub "gaming" "Gaming" ("Xbox" ∷ "PlayStation" ∷ "Steam" ∷ "Nintendo" ∷ "Animal Jam" ∷ [])
      ∷ sub "events_and_activities" "Events & Activities" ("movies" ∷ "concerts" ∷ "museums" ∷ [])
      ∷ sub "other_entertainment" "Other Entertainment" ("hobbies" ∷ "recreation" ∷ [])
      ∷ [];
}

abbrev pub gambling : PrimaryCategory
gambling = record {
  id = "gambling";
  name = "Gambling";
  spend_type = spend;
  sub_categories =
      sub "gambling" "Gambling"
        ("FanDuel" ∷ "DraftKings" ∷ "BetMGM" ∷ "PrizePicks" ∷ "Chumba Casino" ∷ [])
      ∷ [];
}

abbrev pub health : PrimaryCategory
health = record {
  id = "health";
  name = "Health";
  spend_type = spend;
  sub_categories =
      sub "pharmacy" "Pharmacy" ("CVS" ∷ "Walgreens" ∷ "Rite Aid" ∷ [])
      ∷ sub "doctor_and_dental" "Doctor & Dental" ("doctor" ∷ "dentist" ∷ "hospital" ∷ [])
      ∷ sub "gym_and_fitness" "Gym & Fitness" ("Planet Fitness" ∷ "LA Fitness" ∷ "CrossFit" ∷ [])
      ∷ sub "vision" "Vision" ("LensCrafters" ∷ "Warby Parker" ∷ [])
      ∷ sub "health_insurance" "Health Insurance" ("health insurance premiums" ∷ [])
      ∷ [];
}

abbrev pub personal_care : PrimaryCategory
personal_care = record {
  id = "personal_care";
  name = "Personal Care";
  spend_type = spend;
  sub_categories =
      sub "hair_and_beauty" "Hair & Beauty" ("salons" ∷ "barbershops" ∷ "Sephora" ∷ "Ulta" ∷ [])
      ∷ sub "laundry_and_dry_cleaning" "Laundry & Dry Cleaning" ("laundromat" ∷ "dry cleaner" ∷ [])
      ∷ [];
}

abbrev pub travel : PrimaryCategory
travel = record {
  id = "travel";
  name = "Travel";
  spend_type = spend;
  sub_categories =
      sub "flights" "Flights" ("United" ∷ "Delta" ∷ "Southwest" ∷ "American Airlines" ∷ [])
      ∷ sub "hotels_and_lodging" "Hotels & Lodging"
          ("Hilton" ∷ "Marriott" ∷ "Airbnb" ∷ "Motel 6" ∷ [])
      ∷ sub "rental_cars" "Rental Cars" ("Enterprise" ∷ "Hertz" ∷ "Turo" ∷ [])
      ∷ sub "other_travel" "Other Travel" ("Expedia" ∷ "Booking.com" ∷ "travel agencies" ∷ [])
      ∷ [];
}

abbrev pub education : PrimaryCategory
education = record {
  id = "education";
  name = "Education";
  spend_type = spend;
  sub_categories =
      sub "education" "Education" ("tuition" ∷ "textbooks" ∷ "courses" ∷ "student fees" ∷ []) ∷ [];
}

abbrev pub transfers : PrimaryCategory
transfers = record {
  id = "transfers";
  name = "Transfers";
  spend_type = non_spend;
  sub_categories =
      sub "internal" "Internal" ("own account transfers" ∷ "between checking/savings" ∷ [])
      ∷ sub "to_from_savings" "To/From Savings" ("savings transfers" ∷ "round-ups" ∷ [])
      ∷ sub "peer_to_peer" "Peer-to-Peer" ("Venmo" ∷ "Zelle" ∷ "Cash App" ∷ "PayPal" ∷ [])
      ∷ sub "investment" "Investment & Retirement" ("brokerage" ∷ "401k" ∷ "IRA" ∷ [])
      ∷ sub "atm_withdrawal" "ATM Withdrawal" ("ATM cash withdrawal" ∷ [])
      ∷ sub "other_transfer" "Other Transfer" ("wire transfer" ∷ "other" ∷ [])
      ∷ [];
}

abbrev pub debt_and_loans : PrimaryCategory
debt_and_loans = record {
  id = "debt_and_loans";
  name = "Debt & Loans";
  spend_type = non_spend;
  sub_categories =
      sub "credit_card_payment" "Credit Card Payment" ("credit card bill" ∷ [])
      ∷ sub "student_loan" "Student Loan" ("student loan payment" ∷ [])
      ∷ sub "auto_loan" "Auto Loan" ("car payment" ∷ [])
      ∷ sub "personal_loan" "Personal Loan" ("personal loan payment" ∷ [])
      ∷ sub "mortgage_payment" "Mortgage Payment" ("mortgage payment" ∷ [])
      ∷ sub "cash_advance_ewa" "Cash Advance / EWA" ("Earnin" ∷ "Dave" ∷ "Brigit" ∷ "Cleo" ∷ [])
      ∷ [];
}

abbrev pub income : PrimaryCategory
income = record {
  id = "income";
  name = "Income";
  spend_type = non_spend;
  sub_categories =
      sub "paycheck" "Paycheck" ("direct deposit" ∷ "payroll" ∷ [])
      ∷ sub "side_income_gig" "Side Income / Gig"
          ("freelance" ∷ "Uber driver" ∷ "DoorDash driver" ∷ [])
      ∷ sub "interest_and_dividends" "Interest & Dividends" ("interest earned" ∷ "dividends" ∷ [])
      ∷ sub "refunds_and_cashback" "Refunds & Cashback" ("refunds" ∷ "cashback rewards" ∷ [])
      ∷ [];
}

abbrev pub other : PrimaryCategory
other = record {
  id = "other";
  name = "Other";
  spend_type = non_spend;
  sub_categories =
      sub "fees" "Fees" ("ATM fees" ∷ "overdraft fees" ∷ "foreign transaction fees" ∷ [])
      ∷ sub "taxes" "Taxes" ("tax payments" ∷ "IRS" ∷ [])
      ∷ sub "donations" "Donations" ("charitable donations" ∷ "GoFundMe" ∷ [])
      ∷ sub "uncategorized" "Uncategorized" ([])
      ∷ [];
}
