-- ===== src/Irc/Raw.antt =====
-- The enumeration irc_raw of mod/daemon/kumoircd/ModKumoIRCdClient.hpp: the numeric replies.
use pinetd.Prelude.{ℕ}

pub data IrcRaw : Type 0 where
  err_nosuchnick err_nosuchserver err_nosuchchannel err_cannotsendtochan : IrcRaw
  err_toomanychannels err_wasnosuchnick err_toomanytargets err_noorigin err_norecipient : IrcRaw
  err_notexttosend err_notoplevel err_wildtoplevel err_unknowncommand err_nomotd : IrcRaw
  err_noadmininfo err_fileerror err_nonicknamegiven err_erroneusnickname : IrcRaw
  err_nicknameinuse err_nickcollision err_usernotinchannel err_notonchannel : IrcRaw
  err_useronchannel err_nologin err_summondisabled err_usersdisabled err_notregistered : IrcRaw
  err_needmoreparams err_alreadyregistred err_nopermforhost err_passwdmismatch : IrcRaw
  err_yourebannedcreep err_keyset err_channelisfull err_unknownmode err_inviteonlychan : IrcRaw
  err_bannedfromchan err_badchannelkey err_noprivileges err_chanoprivsneeded : IrcRaw
  err_cantkillserver err_nooperhost err_umodeunknownflag err_usersdontmatch rpl_none : IrcRaw
  rpl_userhost rpl_ison rpl_away rpl_unaway rpl_nowaway rpl_whoisuser rpl_whoisserver : IrcRaw
  rpl_whoisoperator rpl_whoisidle rpl_endofwhois rpl_whoischannels rpl_whowasuser : IrcRaw
  rpl_endofwhowas rpl_liststart rpl_list rpl_listend rpl_channelmodeis rpl_notopic : IrcRaw
  rpl_topic rpl_inviting rpl_summoning rpl_version rpl_whoreply rpl_endofwho : IrcRaw
  rpl_namreply rpl_endofnames rpl_links rpl_endoflinks rpl_banlist rpl_endofbanlist : IrcRaw
  rpl_info rpl_endofinfo rpl_motdstart rpl_motd rpl_endofmotd rpl_youreoper : IrcRaw
  rpl_rehashing rpl_time rpl_usersstart rpl_users rpl_endofusers rpl_nousers : IrcRaw
  rpl_tracelink rpl_traceconnecting rpl_tracehandshake rpl_traceunknown : IrcRaw
  rpl_traceoperator rpl_traceuser rpl_traceserver rpl_tracenewtype rpl_tracelog : IrcRaw
  rpl_statslinkinfo rpl_statscommands rpl_statscline rpl_statsnline rpl_statsiline : IrcRaw
  rpl_statskline rpl_statsyline rpl_endofstats rpl_statslline rpl_statsuptime : IrcRaw
  rpl_statsoline rpl_statshline rpl_umodeis rpl_luserclient rpl_luserop : IrcRaw
  rpl_luserunknown rpl_luserchannels rpl_luserme rpl_adminme rpl_adminloc1 : IrcRaw
  rpl_adminloc2 rpl_adminemail rpl_invalid : IrcRaw

-- The number of a reply.
unfoldable pub code : IrcRaw → ℕ
code err_nosuchnick = 401
code err_nosuchserver = 402
code err_nosuchchannel = 403
code err_cannotsendtochan = 404
code err_toomanychannels = 405
code err_wasnosuchnick = 406
code err_toomanytargets = 407
code err_noorigin = 409
code err_norecipient = 411
code err_notexttosend = 412
code err_notoplevel = 413
code err_wildtoplevel = 414
code err_unknowncommand = 421
code err_nomotd = 422
code err_noadmininfo = 423
code err_fileerror = 424
code err_nonicknamegiven = 431
code err_erroneusnickname = 432
code err_nicknameinuse = 433
code err_nickcollision = 436
code err_usernotinchannel = 441
code err_notonchannel = 442
code err_useronchannel = 443
code err_nologin = 444
code err_summondisabled = 445
code err_usersdisabled = 446
code err_notregistered = 451
code err_needmoreparams = 461
code err_alreadyregistred = 462
code err_nopermforhost = 463
code err_passwdmismatch = 464
code err_yourebannedcreep = 465
code err_keyset = 467
code err_channelisfull = 471
code err_unknownmode = 472
code err_inviteonlychan = 473
code err_bannedfromchan = 474
code err_badchannelkey = 475
code err_noprivileges = 481
code err_chanoprivsneeded = 482
code err_cantkillserver = 483
code err_nooperhost = 491
code err_umodeunknownflag = 501
code err_usersdontmatch = 502
code rpl_none = 300
code rpl_userhost = 302
code rpl_ison = 303
code rpl_away = 301
code rpl_unaway = 305
code rpl_nowaway = 306
code rpl_whoisuser = 311
code rpl_whoisserver = 312
code rpl_whoisoperator = 313
code rpl_whoisidle = 317
code rpl_endofwhois = 318
code rpl_whoischannels = 319
code rpl_whowasuser = 314
code rpl_endofwhowas = 369
code rpl_liststart = 321
code rpl_list = 322
code rpl_listend = 323
code rpl_channelmodeis = 324
code rpl_notopic = 331
code rpl_topic = 332
code rpl_inviting = 341
code rpl_summoning = 342
code rpl_version = 351
code rpl_whoreply = 352
code rpl_endofwho = 315
code rpl_namreply = 353
code rpl_endofnames = 366
code rpl_links = 364
code rpl_endoflinks = 365
code rpl_banlist = 367
code rpl_endofbanlist = 368
code rpl_info = 371
code rpl_endofinfo = 374
code rpl_motdstart = 375
code rpl_motd = 372
code rpl_endofmotd = 376
code rpl_youreoper = 381
code rpl_rehashing = 382
code rpl_time = 391
code rpl_usersstart = 392
code rpl_users = 393
code rpl_endofusers = 394
code rpl_nousers = 395
code rpl_tracelink = 200
code rpl_traceconnecting = 201
code rpl_tracehandshake = 202
code rpl_traceunknown = 203
code rpl_traceoperator = 204
code rpl_traceuser = 205
code rpl_traceserver = 206
code rpl_tracenewtype = 208
code rpl_tracelog = 261
code rpl_statslinkinfo = 211
code rpl_statscommands = 212
code rpl_statscline = 213
code rpl_statsnline = 214
code rpl_statsiline = 215
code rpl_statskline = 216
code rpl_statsyline = 218
code rpl_endofstats = 219
code rpl_statslline = 241
code rpl_statsuptime = 242
code rpl_statsoline = 243
code rpl_statshline = 244
code rpl_umodeis = 221
code rpl_luserclient = 251
code rpl_luserop = 252
code rpl_luserunknown = 253
code rpl_luserchannels = 254
code rpl_luserme = 255
code rpl_adminme = 256
code rpl_adminloc1 = 257
code rpl_adminloc2 = 258
code rpl_adminemail = 259
code rpl_invalid = 999
