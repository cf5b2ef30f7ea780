-- ===== src/Mousepad/Keysym.antt =====
-- The keysyms of src/plugins/mousepad/valent-mousepad-keydef.h that its two translations name.
use valent.Prelude.{ℕ}

abbrev pub keysym_iso_level3_shift : ℕ
keysym_iso_level3_shift = 65027

abbrev pub keysym_iso_level3_latch : ℕ
keysym_iso_level3_latch = 65028

abbrev pub keysym_iso_level5_shift : ℕ
keysym_iso_level5_shift = 65041

abbrev pub keysym_iso_level5_latch : ℕ
keysym_iso_level5_latch = 65042

abbrev pub keysym_iso_enter : ℕ
keysym_iso_enter = 65076

abbrev pub keysym_overlay1_enable : ℕ
keysym_overlay1_enable = 65144

abbrev pub keysym_overlay2_enable : ℕ
keysym_overlay2_enable = 65145

abbrev pub keysym_back_space : ℕ
keysym_back_space = 65288

abbrev pub keysym_tab : ℕ
keysym_tab = 65289

abbrev pub keysym_linefeed : ℕ
keysym_linefeed = 65290

abbrev pub keysym_return : ℕ
keysym_return = 65293

abbrev pub keysym_scroll_lock : ℕ
keysym_scroll_lock = 65300

abbrev pub keysym_sys_req : ℕ
keysym_sys_req = 65301

abbrev pub keysym_escape : ℕ
keysym_escape = 65307

abbrev pub keysym_home : ℕ
keysym_home = 65360

abbrev pub keysym_left : ℕ
keysym_left = 65361

abbrev pub keysym_up : ℕ
keysym_up = 65362

abbrev pub keysym_right : ℕ
keysym_right = 65363

abbrev pub keysym_down : ℕ
keysym_down = 65364

abbrev pub keysym_page_up : ℕ
keysym_page_up = 65365

abbrev pub keysym_page_down : ℕ
keysym_page_down = 65366

abbrev pub keysym_end : ℕ
keysym_end = 65367

abbrev pub keysym_mode_switch : ℕ
keysym_mode_switch = 65406

abbrev pub keysym_kp_tab : ℕ
keysym_kp_tab = 65417

abbrev pub keysym_kp_enter : ℕ
keysym_kp_enter = 65421

abbrev pub keysym_kp_home : ℕ
keysym_kp_home = 65429

abbrev pub keysym_kp_left : ℕ
keysym_kp_left = 65430

abbrev pub keysym_kp_up : ℕ
keysym_kp_up = 65431

abbrev pub keysym_kp_right : ℕ
keysym_kp_right = 65432

abbrev pub keysym_kp_down : ℕ
keysym_kp_down = 65433

abbrev pub keysym_kp_page_up : ℕ
keysym_kp_page_up = 65434

abbrev pub keysym_kp_page_down : ℕ
keysym_kp_page_down = 65435

abbrev pub keysym_kp_end : ℕ
keysym_kp_end = 65436

abbrev pub keysym_kp_delete : ℕ
keysym_kp_delete = 65439

abbrev pub keysym_f1 : ℕ
keysym_f1 = 65470

abbrev pub keysym_f2 : ℕ
keysym_f2 = 65471

abbrev pub keysym_f3 : ℕ
keysym_f3 = 65472

abbrev pub keysym_f4 : ℕ
keysym_f4 = 65473

abbrev pub keysym_f5 : ℕ
keysym_f5 = 65474

abbrev pub keysym_f6 : ℕ
keysym_f6 = 65475

abbrev pub keysym_f7 : ℕ
keysym_f7 = 65476

abbrev pub keysym_f8 : ℕ
keysym_f8 = 65477

abbrev pub keysym_f9 : ℕ
keysym_f9 = 65478

abbrev pub keysym_f10 : ℕ
keysym_f10 = 65479

abbrev pub keysym_f11 : ℕ
keysym_f11 = 65480

abbrev pub keysym_f12 : ℕ
keysym_f12 = 65481

abbrev pub keysym_shift_l : ℕ
keysym_shift_l = 65505

abbrev pub keysym_shift_r : ℕ
keysym_shift_r = 65506

abbrev pub keysym_control_l : ℕ
keysym_control_l = 65507

abbrev pub keysym_control_r : ℕ
keysym_control_r = 65508

abbrev pub keysym_caps_lock : ℕ
keysym_caps_lock = 65509

abbrev pub keysym_shift_lock : ℕ
keysym_shift_lock = 65510

abbrev pub keysym_meta_l : ℕ
keysym_meta_l = 65511

abbrev pub keysym_meta_r : ℕ
keysym_meta_r = 65512

abbrev pub keysym_alt_l : ℕ
keysym_alt_l = 65513

abbrev pub keysym_alt_r : ℕ
keysym_alt_r = 65514

abbrev pub keysym_super_l : ℕ
keysym_super_l = 65515

abbrev pub keysym_super_r : ℕ
keysym_super_r = 65516

abbrev pub keysym_hyper_l : ℕ
keysym_hyper_l = 65517

abbrev pub keysym_hyper_r : ℕ
keysym_hyper_r = 65518

abbrev pub keysym_delete : ℕ
keysym_delete = 65535
